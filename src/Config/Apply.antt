-- ===== src/Config/Apply.antt =====
-- `apply_config`, `save_config` and `save_config_hot` of crates/core/src/commands/config.rs, and what
-- the options leave alone. A repository is its config in memory and the saved configs of its
-- backends; whether a backend accepts the write is a parameter.
use rustic_core.Base.{
  sym, is_some, ErrorKind, ◌↔◌, ◌⊎◌, inl, inr, Bool, true, false, Option, none, some, Result, ok,
  err, backend, if◌then◌else◌, ◌≡◌, arith, ◌≢◌, append_only, ◌&&◌, not, Bool-cases, ◌∙◌, ap, refl,
}
use rustic_core.Config.{ConfigFile, Chunker, ℤ}
use mathlib.Core.Logic.{ite, if_pos, if_neg}
use native.Mathlib.Decide.{ℕ_discrete}
use rustic_core.Config.Options.{ConfigOptions, apply}

-- `cold` is the saved config of the main backend, `hot` that of the hot one, if there is one.
pub record Repository : Type 0 where
  pub config : ConfigFile
  pub cold : ConfigFile
  pub hot : Option ConfigFile

-- Which writes the backends accept.
pub record Backends : Type 0 where
  pub cold_accepts : Bool
  pub hot_accepts : Bool

is_true : Option Bool → Bool
is_true (some true) = true
is_true _ = false

is_false : Option Bool → Bool
is_false (some false) = true
is_false _ = false

save_hot : Backends → Option ConfigFile → ConfigFile → Result (Unit {0}) × Option ConfigFile
save_hot be none new = (ok tt, none)
save_hot be (some old) new =
    if be.hot_accepts
    then (ok tt, some (record new { is_hot = some true }))
    else (err backend, some old)

pub save_config_hot : Backends → Repository → ConfigFile → Result (Unit {0}) × Repository
unfolding save_hot
save_config_hot be repo new =
    let (r, hot) = save_hot be repo.hot new in (r, record repo { hot = hot })

pub save_config : Backends → Repository → ConfigFile → Result (Unit {0}) × Repository
unfolding save_config_hot
save_config be repo new =
    if be.cold_accepts
    then save_config_hot be (record repo { cold = record new { is_hot = none } })
        (record new { is_hot = none })
    else (err backend, repo)

then_true : Result (Unit {0}) × Repository → Result Bool × Repository
then_true (ok u, repo) = (ok true, repo)
then_true (err e, repo) = (err e, repo)

-- The derived `==`.
Chunker-discrete : Discrete Chunker
Chunker-discrete = hlevel

ℤ-discrete : Discrete ℤ
ℤ-discrete = hlevel ℕ_discrete

ConfigFile-discrete : Discrete ConfigFile
ConfigFile-discrete = hlevel (ℕ_discrete, Chunker-discrete, ℤ-discrete)

change : Backends → Repository → Result ConfigFile → Result Bool × Repository
unfolding save_config then_true ConfigFile-discrete
change be repo (err e) = (err e, repo)
change be repo (ok new) =
    ite (ConfigFile-discrete new repo.config) (ok false, repo)
      (then_true (save_config be (record repo { config = new }) new))

pub apply_config : (ℤ → Bool) → Backends → ConfigOptions → Repository → Result Bool × Repository
unfolding change is_true is_false
apply_config levels be o repo =
    if is_true repo.config.append_only && not (is_false o.set_append_only)
    then (err append_only, repo)
    else change be repo (apply levels o repo.config)

abbrev map_hot : Option ConfigFile → ConfigFile → Option ConfigFile
map_hot none new = none
map_hot (some old) new = some (record new { is_hot = some true })

-- The repository is append-only, and the options do not change that.
abbrev pub IsLocked : ConfigOptions → Repository → Type 0
IsLocked o repo = (repo.config.append_only ≡ some true) × (o.set_append_only ≢ some false)

-- What the writes of a new config leave: all backends have it, or a backend refused it, and then the
-- config in memory is the new one, while this backend keeps its old one.
abbrev pub Stored : Backends → Repository → ConfigFile → Result Bool × Repository → Type 0
Stored be repo new (ok true, r) =
    (be.cold_accepts ≡ true)
    × ((repo.hot ≡ none) ⊎ (be.hot_accepts ≡ true))
    × (r ≡ record { config = new; cold = record new { is_hot = none }; hot = map_hot repo.hot new })
Stored be repo new (ok false, r) = ⊥
Stored be repo new (err e, r) =
    (e ≡ backend)
    × (((be.cold_accepts ≡ false) × (r ≡ record repo { config = new }))
        ⊎ ((be.cold_accepts ≡ true)
            × (be.hot_accepts ≡ false)
            × (is_some repo.hot ≡ true)
            × (r ≡ record repo { config = new; cold = record new { is_hot = none } })))

-- What `apply_config` returns and leaves. An append-only repository is left alone, unless the options set
-- it free; so it is where `apply` fails, or changes nothing. Another config is kept and written.
abbrev pub Outcome :
    (ℤ → Bool) → Backends → ConfigOptions → Repository → Result Bool × Repository → Type 0
Outcome levels be o repo res =
    (IsLocked o repo × (res ≡ (err append_only, repo)))
    ⊎ ((¬ IsLocked o repo)
        × (((e : ErrorKind) × (apply levels o repo.config ≡ err e) × (res ≡ (err e, repo)))
            ⊎ ((apply levels o repo.config ≡ ok repo.config) × (res ≡ (ok false, repo)))
            ⊎ ((new : ConfigFile) × (apply levels o repo.config ≡ ok new)
                × (new ≢ repo.config)
                × Stored be repo new res)))

save_config-Stored :
    (be : Backends) (repo : Repository) (new : ConfigFile)
    → Stored be repo new (then_true (save_config be (record repo { config = new }) new))
unfolding save_config then_true
save_config-Stored be repo new = go be.cold_accepts be.hot_accepts repo.hot
  where
    go :
        (c h : Bool) (hot : Option ConfigFile)
        → let b : Backends = record { cold_accepts = c; hot_accepts = h } in
          let q : Repository = record repo { hot = hot } in
          Stored b q new (then_true (save_config b (record q { config = new }) new))
    go false h hot = (refl, inl (refl, refl))
    go true h none = (refl, inl refl, refl)
    go true true (some old) = (refl, inr refl, refl)
    go true false (some old) = (refl, inr (refl, refl, refl, refl))

change-Outcome :
    (levels : ℤ → Bool) (be : Backends) (o : ConfigOptions) (repo : Repository)
    (res : Result ConfigFile)
    → (¬ IsLocked o repo)
    → apply levels o repo.config ≡ res
    → Outcome levels be o repo (change be repo res)
unfolding change
change-Outcome levels be o repo (ok new) free e = elim (ConfigFile-discrete new repo.config) [
  | yes same ↦ rw (if_pos _ same) (inr (free, inr (inl (e ∙ ap ok same, refl))))
  | no other ↦
      rw (if_neg _ other) (inr (free, inr (inr (new, e, other, save_config-Stored be repo new))))
]
change-Outcome levels be o repo (err e) free h = inr (free, inl (e, h, refl))

true_not_false : true ≡ false → ⊥
true_not_false e = cc

IsLocked-iff :
    (o : ConfigOptions) (repo : Repository)
    → ((is_true repo.config.append_only && not (is_false o.set_append_only)) ≡ true)
      ↔ IsLocked o repo
unfolding is_true is_false
IsLocked-iff o repo = ((λ h. ground arith), (λ h. ground arith))

-- `apply_config` refuses exactly where the repository is append-only and the options do not set
-- `append_only` to false, and changes nothing then. Where `apply` fails, its error is returned and nothing is
-- changed, and where it gives the config that is there, `false` is returned. Any other config is taken into
-- memory and written, without the hot mark to the main backend and then with it to the hot one: `true` is
-- returned exactly where no backend refuses it, and the backends before the one that does have it.
pub apply_config-Outcome :
    (levels : ℤ → Bool) (be : Backends) (o : ConfigOptions) (repo : Repository)
    → Outcome levels be o repo (apply_config levels be o repo)
unfolding apply_config is_true is_false
apply_config-Outcome levels be o repo =
    elim (Bool-cases (is_true repo.config.append_only && not (is_false o.set_append_only))) [
      | inl refused ↦ rw refused (inl ((IsLocked-iff o repo).0 refused, refl))
      | inr allowed ↦ rw allowed (
          change-Outcome levels be o repo _
            (λ l. true_not_false (sym ((IsLocked-iff o repo).1 l) ∙ allowed)) refl)
    ]
