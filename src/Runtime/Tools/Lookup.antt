-- ===== src/Runtime/Tools/Lookup.antt =====
-- What the registry of tools finds.
use lbe_ci_validation.Base.{
  String, arith, eq_iff, if◌then◌else◌, lookup, lookup-insert, none, ok, some, strip, strip_idem,
  ◌==◌, ◌≡◌, ◌≢◌,
}
use lbe_ci_validation.Runtime.Tools.{ToolHandler, ToolRegistry, ToolSpec, get_tool, register}

module _ {W : Type 0} (spec : ToolSpec) (handler : ToolHandler W) (tools tools' : ToolRegistry W)
    (done : register spec handler tools ≡ ok tools') where
  -- After a registration, a request finds the new tool exactly if its text, stripped, is the tool's
  -- identifier, and finds any other tool as before; the identifier was free.
  pub get-register :
      (name : String)
      → (get_tool name tools' ≡ (
          if spec.tool_id == strip name
          then some (record { spec = spec; handler = handler })
          else get_tool name tools))
        × (lookup spec.tool_id tools ≡ none)
  unfolding register get_tool
  get-register name = ground (
    arith,
    lookup-insert spec.tool_id (strip name) (record { spec = spec; handler = handler }) tools,
  )

  -- A tool whose identifier has space around it is registered and never found: requests strip their
  -- text, and the registration does not.
  pub untrimmed_never_found :
      strip spec.tool_id ≢ spec.tool_id
      → (name : String) → get_tool name tools' ≡ get_tool name tools
  untrimmed_never_found loose name =
      ground (arith, get-register name, eq_iff spec.tool_id (strip name), strip_idem name)
