-- ===== src/Control/Finalizers.antt =====
-- pkg/splunk/controller/finalizers.go. The registry of the finalizers' callbacks is a parameter.
pub mod Clear
use infra_devops.Base.{
  String, Bool, true, false, if◌then◌else◌, str_eq, Option, none, some, List, [], ◌∷◌, message, Err,
  on_error, on_option,
}
use infra_devops.Base.Text.{◌<>◌}
use infra_devops.Base.Dict.{is_some}
use infra_devops.Cluster.{Env, M, ask, gets, modify, pure, ◌>>=◌, ◌>>◌, update_custom_resource}

-- What the code reads and writes of the custom resource: `none` is a nil timestamp.
pub record Deletable : Type 0 where
  pub deletion_timestamp : Option String
  pub finalizers : List String

-- The loop of removeSplunkFinalizer
unfoldable pub without : String → List String → List String
without finalizer [] = []
without finalizer (f ∷ fs) =
    let rest = without finalizer fs in if str_eq f finalizer then rest else f ∷ rest

abbrev pub Registry : Type 0
Registry = String → Option (M Deletable (Option Err))

module _ (env : Env) (registry : Registry) where
  unfoldable pub remove_splunk_finalizer : String → M Deletable (Option Err)
  unfolding without
  remove_splunk_finalizer finalizer = do
    modify (λ cr. record cr { finalizers = without finalizer cr.finalizers })
    left ← gets (λ cr. cr.finalizers)
    ask (update_custom_resource left) (λ h. env.custom_resource_updated h left)

  -- The loop over the finalizers.
  unfoldable pub process_finalizers : List String → M Deletable (Bool × Option Err)
  unfolding remove_splunk_finalizer
  process_finalizers [] = pure (true, none)
  process_finalizers (f ∷ fs) =
      on_option (registry f) (pure (false, some (message ("Finalizer not recognized: " <> f))))
        λ callback. do
          e ← callback
          on_error e (λ e. pure (false, some e))
              (do
                e ← remove_splunk_finalizer f
                on_error e (λ e. pure (false, some e)) (process_finalizers fs))

  -- A timestamp in the future is only logged.
  unfoldable pub check_for_deletion : M Deletable (Bool × Option Err)
  unfolding process_finalizers
  check_for_deletion = do
    cr ← gets (λ cr. cr)
    if is_some cr.deletion_timestamp then process_finalizers cr.finalizers else pure (false, none)
