-- ===== src/Cli/Reporting.antt =====
-- cli/commands/commands.go and internal/discover/discover.go: what is left of a report on its way to `ethctl discover`.
use eth_node_operator.Common.{
  String, ◌≡◌, refl, ap, some, List, [], ◌∷◌, map, is_empty, if◌then◌else◌,
}
use eth_node_operator.Common.Dict.{lookup}
use eth_node_operator.Discover.{Report}
use eth_node_operator.Cli.Discover.{texts, as_texts, report_of, encoded, encoded_texts}

texts-map : (ss : List String) → texts (map some ss) ≡ ss
texts-map [] = refl
texts-map (s ∷ ss) = ap (λ l. s ∷ l) (texts-map ss)

as_texts-encoded_texts : (ss : List String) → as_texts (some (encoded_texts ss)) ≡ ss
as_texts-encoded_texts [] = refl
as_texts-encoded_texts (s ∷ ss) = ap (λ l. s ∷ l) (texts-map ss)

warnings-encoded :
    (ss : List String)
    → as_texts (lookup "warnings" (if is_empty ss then [] else ("warnings", encoded_texts ss) ∷ []))
      ≡ ss
unfolding lookup
warnings-encoded [] = refl
warnings-encoded (s ∷ ss) = as_texts-encoded_texts (s ∷ ss)

-- The command reads back every field of the report that the agent encodes, although an empty list is written as null, or, for
-- the warnings, not at all.
pub report_of-encoded : (r : Report) → report_of (encoded r) ≡ r
unfolding report_of encoded lookup
report_of-encoded r =
    rw (as_texts-encoded_texts r.vc_gateway_ips)
      (rw (as_texts-encoded_texts r.management_ips) (rw (warnings-encoded r.warnings) refl))
