-- ===== src/Api/Contract.antt =====
-- api/contract.py: the operations that the contract lists for an agent, with their parameters. The
-- prose is left out.
use bedjet_local.Prelude.{String, Bool, true, false, List, [], ◌∷◌}
use bedjet_local.Api.Service.{available_modes}

-- The type of a parameter; a text may come with the values that it can take.
pub data ParamType : Type 0 where
  a_boolean a_number an_integer : ParamType
  one_of : List String → ParamType

pub record Param : Type 0 where
  pub name : String
  pub kind : ParamType
  pub required : Bool

-- What an operation returns, in the vocabulary of `returns_vocabulary`.
pub data Returned : Type 0 where
  liveness contract_document state_object build_limits state_stream command_results : Returned

pub data Kind : Type 0 where
  service_kind read_kind command_kind lease_kind : Kind

pub record Operation : Type 0 where
  pub name : String
  pub returns : Returned
  pub kind : Kind
  pub physical : Bool
  pub params : List Param

-- `_dry_run_param`
abbrev pub dry_run_param : Param
dry_run_param = record { name = "dry_run"; kind = a_boolean; required = false }

abbrev quiet : String → Returned → Kind → List Param → Operation
quiet name returns kind params = record {
  name = name;
  returns = returns;
  kind = kind;
  physical = false;
  params = params;
}

abbrev command : String → List Param → Operation
command name params = record {
  name = name;
  returns = command_results;
  kind = command_kind;
  physical = true;
  params = params;
}

abbrev pub health : Operation
health = quiet "health" liveness service_kind []

abbrev pub get_contract : Operation
get_contract = quiet "get_contract" contract_document service_kind []

abbrev pub get_state : Operation
get_state = quiet "get_state" state_object read_kind []

abbrev pub get_capabilities : Operation
get_capabilities = quiet "get_capabilities" build_limits read_kind []

abbrev pub stream_state : Operation
stream_state = quiet "stream_state" state_stream read_kind []

abbrev pub turn_off : Operation
turn_off = command "turn_off" (dry_run_param ∷ [])

unfoldable pub set_mode : Operation
set_mode =
    command "set_mode" (
      record { name = "mode"; kind = one_of available_modes; required = true } ∷ dry_run_param ∷ [])

abbrev pub set_temperature : Operation
set_temperature = command "set_temperature" (
    record { name = "celsius"; kind = a_number; required = false }
    ∷ record { name = "fahrenheit"; kind = a_number; required = false }
    ∷ dry_run_param
    ∷ [])

abbrev pub set_fan : Operation
set_fan =
    command "set_fan"
      (record { name = "percent"; kind = an_integer; required = true } ∷ dry_run_param ∷ [])

abbrev pub yield_link : Operation
yield_link =
    quiet "yield_link" state_object lease_kind
      (record { name = "seconds"; kind = a_number; required = true } ∷ [])

abbrev pub resume_link : Operation
resume_link = quiet "resume_link" state_object lease_kind []

-- The list `operations`, in its order.
unfoldable pub operations : List Operation
unfolding set_mode
operations =
    health ∷ get_contract ∷ get_state ∷ get_capabilities ∷ stream_state ∷ turn_off ∷ set_mode
    ∷ set_temperature ∷ set_fan ∷ yield_link ∷ resume_link ∷ []
