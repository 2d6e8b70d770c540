-- ===== src/Config/Loads.antt =====
-- What the calls of LoadConfig return one after another.
use mathlib.Core.Bool.{false≢true}
use evm_oracle.Base.Results.{Result, err, ok}
use evm_oracle.Base.{
  List, String, ◌≡◌, Option, true, All, ◌∷◌, [], some, Option-cases, inl, inr, refl, if_cases,
  Bool-cases, ◌∙◌, ap, sym,
}
use evm_oracle.Config.Loader.{
  GlobalConfig, load_config, ConfigTools, load_once, Package, fresh_package, ConfigError,
  read_failed, loaded_config,
}

module _ {F : Type 0} (zero_config : GlobalConfig F) where
  -- The results of calls after each other, each with what os and encoding/json do in it
  unfoldable pub load_all :
      List (ConfigTools F × String)
      → Package F
      → List (Result ConfigError (Option (GlobalConfig F)))
  load_all [] s = []
  load_all ((t, path) ∷ calls) s =
      let (result, s') = load_config F t zero_config path s in result ∷ load_all calls s'

  load_config-again :
      (t : ConfigTools F) (path : String) (s : Package F)
      → s.loaded ≡ true
      → load_config F t zero_config path s ≡ (ok s.config, s)
  unfolding load_config
  load_config-again t path s h =
      if_cases (λ (x : Option ConfigError × Package F). loaded_config F x ≡ (ok s.config, s))
        s.loaded _ _ (λ _. refl) (λ l. absurd (false≢true (sym l ∙ h)))

  loaded-again :
      (calls : List (ConfigTools F × String)) (s : Package F)
      → s.loaded ≡ true
      → All (λ r. r ≡ ok s.config) (load_all calls s)
  unfolding load_all
  loaded-again [] s h = tt
  loaded-again ((t, path) ∷ calls) s h =
      let again = load_config-again t path s h in rw again (refl, loaded-again calls s h)

  abbrev ReadFailure : Result ConfigError (Option (GlobalConfig F)) × Package F → Type 0
  ReadFailure r = (r.1.loaded ≡ true) × (r.0 ≡ err read_failed → r.1.config ≡ some zero_config)

  -- What the first call leaves
  first_load :
      (t : ConfigTools F) (path : String)
      → ReadFailure (load_config F t zero_config path (fresh_package F))
  unfolding load_config load_once
  first_load t path = elim (Option-cases (t.read_file path)) [
    | inl e ↦ rw (e, load_once) (refl, λ _. refl)
    | inr (bytes, e) ↦ elim (Bool-cases (t.unmarshal bytes zero_config).0) [
      | inl fine ↦ rw (e, load_once, fine) (refl, λ h. cc)
      | inr bad ↦ rw (e, load_once, bad) (refl, λ h. cc)
    ]
  ]

  -- A LoadConfig that fails is the last to say so: every later call returns the same configuration and no
  -- error, whatever file it is asked for, and the zero configuration if the first one could not read its
  -- file.
  pub failed_load-hides :
      (t : ConfigTools F) (path : String) (calls : List (ConfigTools F × String)) (e : ConfigError)
      → (load_config F t zero_config path (fresh_package F)).0 ≡ err e
      → let s = (load_config F t zero_config path (fresh_package F)).1 in
        All (λ r. r ≡ ok s.config) (load_all calls s)
        × (e ≡ read_failed → s.config ≡ some zero_config)
  failed_load-hides t path calls e h =
      let (loaded, zero) = first_load t path in
      (loaded-again calls _ loaded, λ same. zero (h ∙ ap err same))
