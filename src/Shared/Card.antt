-- ===== src/Shared/Card.antt =====
-- `AgentCard` of packages/shared/src/types/a2a.ts. A card that came over the network may lack any
-- field: a missing name or url is "", and `none` stands for `capabilities` or `authentication`
-- that are no object and for `endpoints` that are no array.
use kalen.Prelude.{String, Bool, Option, List}

pub record AgentCapabilities : Type 0 where
  pub streaming : Bool
  pub push_notifications : Bool
  pub state_transition_history : Bool

pub record A2aEndpoint : Type 0 where
  pub method : String
  pub path : String
  pub description : Option String

pub record A2aAuthentication : Type 0 where
  pub scheme : String
  pub scopes : Option (List String)

pub record AgentCard : Type 0 where
  pub name : String
  pub url : String
  pub description : Option String
  pub capabilities : Option AgentCapabilities
  pub endpoints : Option (List A2aEndpoint)
  pub authentication : Option A2aAuthentication
  pub version : Option String
  pub public_key : Option String
  pub signature : Option String
