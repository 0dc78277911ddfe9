-- ===== src/Agent/Join.antt =====
-- mlx-gateway/join.mjs and the enrollment of nodeAgent.mjs: a gateway joins with a one-time token. The
-- options and the environment are texts, and one that is missing is the empty text.
use swiftlm_platform.Base.{
  ℕ, Bool, true, false, not, ◌&&◌, ◌||◌, Option, none, some, List, [], ◌∷◌, Text, codes, ◌++◌, ◌==◌,
  is_empty, or_else, starts_with, drop, leb, ltb, if◌then◌else◌,
}
use swiftlm_platform.Agent.{AgentState, AgentJson}

abbrev Options : Type 0
Options = List (Text × Text)

abbrev is_option : Text → Bool
is_option arg = starts_with (codes "--") arg

-- The pairs in the order in which they are set; an option takes the argument behind it, whatever it is.
unfoldable pub options_of : List Text → Options
options_of [] = []
options_of (arg ∷ []) = if is_option arg then (drop 2 arg, []) ∷ [] else []
options_of (arg ∷ value ∷ rest) = elim (is_option arg) [
  | true ↦ (drop 2 arg, value) ∷ options_of rest
  | false ↦ options_of (value ∷ rest)
]

abbrev first_argument : List Text → Text
first_argument [] = []
first_argument (token ∷ rest) = token

abbrev rest_arguments : List Text → List Text
rest_arguments [] = []
rest_arguments (token ∷ rest) = rest

unfoldable pub parse_args : List Text → Options
unfolding options_of
parse_args argv = (codes "token", first_argument argv) ∷ options_of (rest_arguments argv)

-- The last value that was set.
abbrev value_of : Text → Text → Options → Text
value_of name found [] = found
value_of name found ((k, v) ∷ options) = value_of name (if k == name then v else found) options

abbrev pub option : Text → Options → Text
option name options = value_of name [] options

-- `text.replace(/\/$/, "")`
abbrev strip_slash : Text → Text
strip_slash [] = []
strip_slash (c ∷ []) = if c ∷ [] == codes "/" then [] else c ∷ []
strip_slash (c ∷ d ∷ s) = c ∷ strip_slash (d ∷ s)

-- What `join` reads of the environment, and where the state goes if nothing says so.
pub record Environment : Type 0 where
  pub dashboard_base_url : Text
  pub model_id : Text
  pub state_file : Text
  pub default_state_file : Text

pub record Enrollment : Type 0 where
  pub dashboard_url : Text
  pub token : Text
  pub name : Text
  pub provider : Text
  pub base_url : Text
  pub model_id : Text
  pub model_name : Text

pub data Plan : Type 0 where
  no_token no_server no_base_url no_name no_model : Plan
  joins : Enrollment → Text → Plan

-- The first thing that is missing ends the run.
abbrev checked : Enrollment → Text → Plan
checked e file =
    if is_empty e.token || not (starts_with (codes "enroll_") e.token)
    then no_token
    else if is_empty e.dashboard_url
    then no_server
    else if is_empty e.base_url
    then no_base_url
    else if is_empty e.name
    then no_name
    else if is_empty e.model_id
    then no_model
    else joins e file

abbrev wanted : Environment → Options → Enrollment
wanted env options =
    let model_id = or_else (option (codes "model-id") options) env.model_id in
    record {
      dashboard_url =
          strip_slash (or_else (option (codes "server") options) env.dashboard_base_url);
      token = option (codes "token") options;
      name = option (codes "name") options;
      provider = or_else (option (codes "provider") options) (codes "swiftlm");
      base_url = option (codes "base-url") options;
      model_id = model_id;
      model_name = or_else (option (codes "model-name") options) model_id;
    }

abbrev state_path : Environment → Options → Text
state_path env options =
    or_else (option (codes "state-file") options) (or_else env.state_file env.default_state_file)

-- `main`, up to the call of the dashboard.
unfoldable pub plan : Environment → List Text → Plan
unfolding parse_args
plan env argv = checked (wanted env (parse_args argv)) (state_path env (parse_args argv))

-- The dashboard's reply: its status and the fields of its JSON, if it is JSON.
pub record Answer : Type 0 where
  pub status : ℕ
  pub node_id : Text
  pub node_secret : Text

-- `enroll` behind the call: the id and the secret, or none where it throws.
unfoldable pub read_answer : Answer → Option (Text × Text)
read_answer r =
    if not (leb 200 r.status && ltb r.status 300) || is_empty r.node_id || is_empty r.node_secret
    then none
    else some (r.node_id, r.node_secret)

abbrev pub state_of : Enrollment → Text × Text → AgentState
state_of e (id, secret) = record {
  dashboard_url = e.dashboard_url;
  node_id = id;
  node_secret = secret;
}

abbrev save : AgentJson → Enrollment → Text → Option (Text × Text) → Option (Text × Text)
save k e file none = none
save k e file (some identity) = some (file, k.state_text (state_of e identity) ++ codes "\n")

abbrev carry_out : AgentJson → (Enrollment → Answer) → Plan → Option (Text × Text)
carry_out k call (joins e file) = save k e file (read_answer (call e))
carry_out k call _ = none

-- The file that a run writes, with its text.
unfoldable pub join :
    AgentJson → Environment → List Text → (Enrollment → Answer) → Option (Text × Text)
unfolding plan read_answer
join k env argv call = carry_out k call (plan env argv)
