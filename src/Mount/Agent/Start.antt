-- ===== src/Mount/Agent/Start.antt =====
-- The start of the privilege agent (src/mount/host_priv.cpp).
use reflash.Base.{ℕ, Bool, true, false, ◌&&◌, Option, none, some, [], Text, text}
use reflash.Mount.Agent.{Processes, SessionEnv, agent_main}
use reflash.Mount.Pipe.{Pipe}

pub data ForkEnd : Type 0 where
  parent : ℕ → ForkEnd
  child not_forked : ForkEnd

-- The calls for pipes and processes; `pipe2` answers the descriptors for reading and for writing.
pub record Forks (W : Type 0) : Type 0 where
  pub getenv : Text → W → Option Text
  pub pipe2 : W → Option (ℕ × ℕ) × W
  pub fork : W → ForkEnd × W
  pub close : ℕ → W → W
  pub on_fd : ℕ → Pipe W

-- The variables of the module, with none for -1.
pub record AgentState : Type 0 where
  pub req_w : Option ℕ
  pub rep_r : Option ℕ
  pub pid : Option ℕ
  pub gui : Bool
  pub env : SessionEnv

-- The call returns, or the process is the agent, which has left.
pub data StartEnd : Type 0 where
  start_returned : Bool → AgentState → StartEnd
  agent_left : StartEnd

or_unset : Option Text → Text
or_unset none = []
or_unset (some value) = value

has_value : Option ℕ → Bool
has_value none = false
has_value (some n) = true

pub set_host_priv_gui : Bool → AgentState → AgentState
set_host_priv_gui on st = record st { gui = on }

pub host_priv_gui : AgentState → Bool
host_priv_gui st = st.gui

pub host_priv_agent_running : AgentState → Bool
host_priv_agent_running st = has_value st.pid && (has_value st.req_w && has_value st.rep_r)

module _ {W : Type 0} (sys : Processes W) (f : Forks W) (rounds fuel : ℕ) where
  pub snap_session_env : W → SessionEnv
  snap_session_env w = record {
    display = or_unset (f.getenv (text "DISPLAY") w);
    wayland = or_unset (f.getenv (text "WAYLAND_DISPLAY") w);
    xauthority = or_unset (f.getenv (text "XAUTHORITY") w);
    dbus = or_unset (f.getenv (text "DBUS_SESSION_BUS_ADDRESS") w);
    xdg_runtime = or_unset (f.getenv (text "XDG_RUNTIME_DIR") w);
  }

  -- In the child: it closes the other ends and serves until it leaves.
  run_child : AgentState → ℕ × ℕ → ℕ × ℕ → W → W
  run_child st req rep w =
      agent_main sys st.env rounds fuel st.gui (f.on_fd req.0) (f.on_fd rep.1)
        (f.close rep.0 (f.close req.1 w))

  forked : AgentState → ℕ × ℕ → ℕ × ℕ → ForkEnd × W → StartEnd × W
  forked st req rep (not_forked, w) =
      (start_returned false st, f.close rep.1 (f.close rep.0 (f.close req.1 (f.close req.0 w))))
  forked st req rep (child, w) = (agent_left, run_child st req rep w)
  forked st req rep (parent n, w) = (
    start_returned true (record st { req_w = some req.1; rep_r = some rep.0; pid = some n }),
    f.close rep.1 (f.close req.0 w),
  )

  with_reply : AgentState → ℕ × ℕ → Option (ℕ × ℕ) × W → StartEnd × W
  with_reply st req (none, w) = (start_returned false st, f.close req.1 (f.close req.0 w))
  with_reply st req (some rep, w) = forked st req rep (f.fork w)

  with_request : AgentState → Option (ℕ × ℕ) × W → StartEnd × W
  with_request st (none, w) = (start_returned false st, w)
  with_request st (some req, w) = with_reply st req (f.pipe2 w)

  start_new : Option ℕ → AgentState → W → StartEnd × W
  start_new (some n) st w = (start_returned true st, w)
  start_new none st w = with_request (record st { env = snap_session_env w }) (f.pipe2 w)

  -- The agent gets the flag of the user interface as it stands at its start.
  pub start_host_priv_agent : AgentState → W → StartEnd × W
  start_host_priv_agent st w = start_new st.pid st w
