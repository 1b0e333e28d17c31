-- ===== src/Shared/Tool.antt =====
-- packages/shared/src/types/mcp.ts: tools, resources and results. A schema's `type` is always
-- "object", and its index signature is not used.
use kalen.Prelude.{String, Bool, Option, List}
use kalen.Shared.Json.{Fields}

-- `JSONSchemaObject`
pub record Schema : Type 0 where
  pub properties : Option Fields
  pub required : Option (List String)

-- `MCPTool`
pub record McpTool : Type 0 where
  pub name : String
  pub description : String
  pub input_schema : Schema

-- `MCPResource`
pub record McpResource : Type 0 where
  pub uri : String
  pub name : String
  pub description : Option String
  pub mime_type : Option String

pub data BlockType : Type 0 where
  text image resource : BlockType

-- `MCPContentBlock`
pub record ContentBlock : Type 0 where
  pub block_type : BlockType
  pub content : Option String
  pub data_ : Option String
  pub mime_type : Option String
  pub attachment : Option McpResource

-- `MCPCallResult`
pub record CallResult : Type 0 where
  pub is_error : Bool
  pub content : List ContentBlock

pub data CallerKind : Type 0 where
  human agent : CallerKind
