-- ===== src/Plugin/SugarDb/Once.antt =====
-- That a process has one embedded database: gateway/internal/plugin/ratelimit_sugardb.go.
use dealer.Base.{◌≡◌, refl, Option, none, some, List, [], ◌∷◌, Result, String}
use dealer.Command.Environment.{Environment}
use dealer.Plugin.SugarDb.{DbConfig, SetupError, Shared, set_up, get_shared}

module _ {D : Type 0} (default_config : DbConfig) (mkdir_temp : Option String)
    (new_sugar_db : DbConfig → Result String D) where
  -- What is shared after some calls, each with the environment of its time.
  unfoldable pub after_calls :
      List Environment
      → Shared default_config mkdir_temp new_sugar_db
      → Shared default_config mkdir_temp new_sugar_db
  after_calls [] s = s
  after_calls (env ∷ envs) s =
      after_calls envs (get_shared default_config mkdir_temp new_sugar_db env s).0

  settled :
      (envs : List Environment) (outcome : Result SetupError D)
      → after_calls envs (some outcome) ≡ some outcome
  unfolding after_calls get_shared
  settled [] outcome = refl
  settled (env ∷ envs) outcome = settled envs outcome

  -- The first call decides: whatever calls come in between and whatever the environment is by then,
  -- every later call gives the outcome of the first one, its error too.
  pub get_shared-once :
      (first later : Environment) (between : List Environment)
      → (get_shared default_config mkdir_temp new_sugar_db later
          (after_calls (first ∷ between) none)).1
        ≡ set_up default_config mkdir_temp new_sugar_db first
  unfolding after_calls get_shared
  get_shared-once first later between =
      let outcome = set_up default_config mkdir_temp new_sugar_db first in
      rw (settled between outcome)
