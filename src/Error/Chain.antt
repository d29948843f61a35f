-- ===== src/Error/Chain.antt =====
-- How inengine-core/src/error.rs shows an error with its sources. An error is its text and those
-- of its sources, in order.
mod Examples
use in_engine_net.Prelude.{
  Bool, true, false, ◌&&◌, ◌||◌, not, List, [], ◌∷◌, ◌++◌, Bytes, codes, bytes_eq, if◌then◌else◌,
}

abbrev ends_with : Bytes → Bytes → Bool
ends_with [] suffix = bytes_eq [] suffix
ends_with (b ∷ bs) suffix = bytes_eq (b ∷ bs) suffix || ends_with bs suffix

abbrev is_empty : Bytes → Bool
is_empty [] = true
is_empty (b ∷ bs) = false

-- A text that ends the one before it is skipped.
unfoldable pub chain_after : Bytes → List Bytes → List Bytes
chain_after previous [] = []
chain_after previous (text ∷ texts) =
    let rest = chain_after text texts in
    if not (is_empty text) && ends_with previous text then rest else text ∷ rest

unfoldable pub chain : List Bytes → List Bytes
unfolding chain_after
chain texts = chain_after [] texts

abbrev causes : List Bytes → Bytes
causes [] = []
causes (text ∷ texts) = codes "  caused by: " ++ text ++ b'\n' ∷ causes texts

abbrev described : List Bytes → Bytes
described [] = []
described (text ∷ texts) = codes "Error: " ++ text ++ b'\n' ∷ causes texts

unfoldable pub describe_error_chain : List Bytes → Bytes
unfolding chain
describe_error_chain texts = described (chain texts)

abbrev after_separators : List Bytes → Bytes
after_separators [] = []
after_separators (text ∷ texts) = codes ": " ++ text ++ after_separators texts

abbrev joined : List Bytes → Bytes
joined [] = []
joined (text ∷ texts) = text ++ after_separators texts

-- `Display for ErrorChain`
unfoldable pub error_chain_text : List Bytes → Bytes
unfolding chain
error_chain_text texts = joined (chain texts)
