-- ===== src/Docker/Engine.antt =====
-- The Docker SDK, as internal/modules/v2/docker/service.go uses it: the fields that the service
-- reads and writes, and the calls of the client.
use serveo_api_golang.Prelude.{ℕ, Bool, Option, List, ◌⊎◌}
use serveo_api_golang.Text.{Str}
use serveo_api_golang.Text.Number.{ℤ}

pub record PortBinding : Type 0 where
  pub host_ip : Str
  pub host_port : Str

-- container.Config; `others` holds the fields that the service never names
pub record Config (Others : Type 0) : Type 0 where
  pub image : Str
  pub env : List Str
  pub exposed_ports : List (Str × Unit {0})
  pub labels : List (Str × Str)
  pub tty : Bool
  pub open_stdin : Bool
  pub others : Others

-- container.HostConfig
pub record HostConfig (Others : Type 0) : Type 0 where
  pub binds : List Str
  pub port_bindings : List (Str × List PortBinding)
  pub restart_policy : Str
  pub memory : ℤ
  pub others : Others

-- container.Summary, with the public and the private number of each port
pub record Summary : Type 0 where
  pub id : Str
  pub names : List Str
  pub image : Str
  pub state : Str
  pub status : Str
  pub labels : List (Str × Str)
  pub ports : List (ℕ × ℕ)

-- container.InspectResponse: ID, Name, State.Status, what Config and HostConfig point to, and
-- NetworkSettings.Networks
pub record Inspect (ConfigOthers HostOthers Networks : Type 0) : Type 0 where
  pub id : Str
  pub name : Str
  pub status : Str
  pub config : Config ConfigOthers
  pub host_config : HostConfig HostOthers
  pub networks : Networks

-- The client, on the state of the engine; a call has a result or the text of an error.
pub record Client (W : Type 0) : Type 1 where
  pub ConfigOthers : Type 0
  pub HostOthers : Type 0
  pub Networks : Type 0
  pub Stream : Type 0
  pub no_config_others : ConfigOthers
  pub no_host_others : HostOthers
  pub container_list : W → W × (List Summary ⊎ Str)
  pub container_inspect : Str → W → W × (Inspect ConfigOthers HostOthers Networks ⊎ Str)
  pub container_start : Str → W → W × Option Str
  pub container_stop : Str → W → W × Option Str
  pub container_restart : Str → W → W × Option Str
  pub container_rename : Str → Str → W → W × Option Str
  -- with its options Force and RemoveVolumes
  pub container_remove : Str → Bool → Bool → W → W × Option Str
  pub container_create :
      Config ConfigOthers → HostConfig HostOthers → Option Networks → Str → W → W × (Str ⊎ Str)
  pub image_pull : Str → W → W × (Stream ⊎ Str)
  -- io.Copy to the end of the stream, and Close
  pub drain : Stream → W → W
  -- nat.NewPort
  pub new_port : Str → Str → Option Str
