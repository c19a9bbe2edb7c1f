-- ===== src/Enterprise/MonitoringConsole/Frame.antt =====
-- What a change to the URLs leaves alone: AddURLsConfigMap and DeleteURLsConfigMap of
-- pkg/splunk/enterprise/monitoringconsole.go.
use infra_devops.Base.{String, false, str_eq, Option, some, ◌≡◌}
use infra_devops.Base.Dict.{Dict, lookup}
use infra_devops.Enterprise.MonitoringConsole.{EnvVar, Data}

-- A change returns, with a map that is not nil and has the same value for `key`.
pub record Kept (key : String) (d : Dict String) (o : Option Data) : Type 0 where
  pub changed : Dict String
  pub returns : o ≡ some (some changed)
  pub keeps : lookup key changed ≡ lookup key d

-- The URL is another variable's.
abbrev pub Elsewhere : String → EnvVar → Type 0
Elsewhere key url = str_eq url.name key ≡ false
