-- ===== src/Named/Profiles.antt =====
-- core/executor_profile_store.go: the record of a profile, as it is written to the file, and as the
-- configuration has it. A duration, an int and a time are numbers; time.ParseDuration and its inverse
-- are arguments.
use godelayq.Prelude.{
  ℕ, List, map, Bool, true, false, ◌&&◌, Option, none, some, String, if◌then◌else◌,
}
use godelayq.Int64.{positive64}
use godelayq.Text.{trim_text, is_blank_text}
use godelayq.Dict.{Dict}
use godelayq.JsonStore.{DiskAnswers, negative64}
use godelayq.Named.{
  Kind, ListCodec, NamedStore, Answer, list_all, get, save_named, delete_named, write_all,
}
use godelayq.Named.Groups.{good_name}

pub record ExecutorArgRecord : Type 0 where
  pub name : String
  pub required : Bool
  pub default : String
  pub pattern : String
  pub secret : Bool
  pub allow_dash : Bool

pub record ExecutorPositionalRecord : Type 0 where
  pub max : ℕ
  pub pattern : String

pub record ExecutorArg : Type 0 where
  pub name : String
  pub required : Bool
  pub default : String
  pub pattern : String
  pub secret : Bool
  pub allow_dash : Bool

pub record ExecutorPositional : Type 0 where
  pub max : ℕ
  pub pattern : String

pub record ExecutorCommand : Type 0 where
  pub name : String
  pub kind : String
  pub runtime : String
  pub script : String
  pub program : String
  pub fixed_args : List String
  pub args : List ExecutorArg
  pub args_render : List String
  pub positional : Option ExecutorPositional
  pub cwd : String
  pub env : Dict String
  pub env_allow : List String
  pub timeout : ℕ
  pub max_parallel : ℕ
  pub retry_on_exit : List ℕ
  pub method : String
  pub url_template : String
  pub allowed_hosts : List String
  pub headers : Dict (List String)
  pub header_allow : List String
  pub body : String
  pub expect_status : List ℕ
  pub capture_response : Bool
  pub max_body_bytes : ℕ
  pub max_redirects : ℕ
  pub deny_private : Option Bool

pub record ExecutorProfileRecord : Type 0 where
  pub name : String
  pub kind : String
  pub runtime : String
  pub script : String
  pub program : String
  pub fixed_args : List String
  pub args : List ExecutorArgRecord
  pub args_render : List String
  pub positional : Option ExecutorPositionalRecord
  pub cwd : String
  pub env : Dict String
  pub env_allow : List String
  pub timeout : String
  pub max_parallel : ℕ
  pub retry_on_exit : List ℕ
  pub method : String
  pub url_template : String
  pub allowed_hosts : List String
  pub headers : Dict (List String)
  pub header_allow : List String
  pub body : String
  pub expect_status : List ℕ
  pub capture_response : Bool
  pub max_body_bytes : ℕ
  pub max_redirects : ℕ
  pub deny_private : Option Bool
  pub created_at : ℕ
  pub updated_at : ℕ

-- time.ParseDuration, and Duration.String of a positive duration.
pub record Durations : Type 0 where
  pub parse : String → Option ℕ
  pub print : ℕ → String

abbrev pub arg_record : ExecutorArg → ExecutorArgRecord
arg_record a = record {
  name = a.name;
  required = a.required;
  default = a.default;
  pattern = a.pattern;
  secret = a.secret;
  allow_dash = a.allow_dash;
}

abbrev pub arg_of : ExecutorArgRecord → ExecutorArg
arg_of a = record {
  name = a.name;
  required = a.required;
  default = a.default;
  pattern = a.pattern;
  secret = a.secret;
  allow_dash = a.allow_dash;
}

abbrev pub positional_record : Option ExecutorPositional → Option ExecutorPositionalRecord
positional_record none = none
positional_record (some p) = some (record { max = p.max; pattern = p.pattern })

abbrev pub positional_of : Option ExecutorPositionalRecord → Option ExecutorPositional
positional_of none = none
positional_of (some p) = some (record { max = p.max; pattern = p.pattern })

module _ (durations : Durations) where
  unfoldable pub new_executor_profile_record : ExecutorCommand → ExecutorProfileRecord
  new_executor_profile_record cmd = record {
    name = cmd.name;
    kind = cmd.kind;
    runtime = cmd.runtime;
    script = cmd.script;
    program = cmd.program;
    fixed_args = cmd.fixed_args;
    args = map arg_record cmd.args;
    args_render = cmd.args_render;
    positional = positional_record cmd.positional;
    cwd = cmd.cwd;
    env = cmd.env;
    env_allow = cmd.env_allow;
    timeout = if positive64 cmd.timeout then durations.print cmd.timeout else "";
    max_parallel = cmd.max_parallel;
    retry_on_exit = cmd.retry_on_exit;
    method = cmd.method;
    url_template = cmd.url_template;
    allowed_hosts = cmd.allowed_hosts;
    headers = cmd.headers;
    header_allow = cmd.header_allow;
    body = cmd.body;
    expect_status = cmd.expect_status;
    capture_response = cmd.capture_response;
    max_body_bytes = cmd.max_body_bytes;
    max_redirects = cmd.max_redirects;
    deny_private = cmd.deny_private;
    created_at = 0;
    updated_at = 0;
  }

  abbrev pub command_with : ExecutorProfileRecord → ℕ → ExecutorCommand
  command_with r timeout = record {
    name = r.name;
    kind = r.kind;
    runtime = r.runtime;
    script = r.script;
    program = r.program;
    fixed_args = r.fixed_args;
    args = map arg_of r.args;
    args_render = r.args_render;
    positional = positional_of r.positional;
    cwd = r.cwd;
    env = r.env;
    env_allow = r.env_allow;
    timeout = timeout;
    max_parallel = r.max_parallel;
    retry_on_exit = r.retry_on_exit;
    method = r.method;
    url_template = r.url_template;
    allowed_hosts = r.allowed_hosts;
    headers = r.headers;
    header_allow = r.header_allow;
    body = r.body;
    expect_status = r.expect_status;
    capture_response = r.capture_response;
    max_body_bytes = r.max_body_bytes;
    max_redirects = r.max_redirects;
    deny_private = r.deny_private;
  }

  unfoldable pub command : ExecutorProfileRecord → Option ExecutorCommand
  command r =
      if is_blank_text (trim_text r.timeout)
      then some (command_with r 0)
      else elim (durations.parse (trim_text r.timeout)) [
        | none ↦ none
        | some timeout ↦ if negative64 timeout then none else some (command_with r timeout)
      ]

  abbrev pub is_some : Option ExecutorCommand → Bool
  is_some none = false
  is_some (some _) = true

  unfoldable pub check_profile_record : ExecutorProfileRecord → Bool
  check_profile_record r = good_name r.name && is_some (command r)

  abbrev pub profile_kind : Kind ExecutorProfileRecord
  profile_kind = record {
    name = λ r. r.name;
    created_at = λ r. r.created_at;
    stamped = λ r created updated. record r { created_at = created; updated_at = updated };
    good = check_profile_record;
  }

  -- The calls of the store of the profiles.
  module _ (lower : String → String) where
    abbrev pub list_profiles : NamedStore ExecutorProfileRecord → List ExecutorProfileRecord
    list_profiles = list_all profile_kind lower

    abbrev pub get_profile :
        NamedStore ExecutorProfileRecord → String → Option ExecutorProfileRecord
    get_profile = get profile_kind lower

    module _ (codec : ListCodec ExecutorProfileRecord) where
      abbrev pub flush_profiles :
          NamedStore ExecutorProfileRecord → DiskAnswers → NamedStore ExecutorProfileRecord × Answer
      flush_profiles = write_all profile_kind lower codec

      abbrev pub save_profile :
          NamedStore ExecutorProfileRecord
          → ExecutorProfileRecord
          → ℕ
          → DiskAnswers
          → NamedStore ExecutorProfileRecord × Answer
      save_profile = save_named profile_kind lower codec

      abbrev pub delete_profile :
          NamedStore ExecutorProfileRecord
          → String
          → DiskAnswers
          → NamedStore ExecutorProfileRecord × Answer
      delete_profile = delete_named profile_kind lower codec
