-- ===== src/Policy/Builtins.antt =====
-- The built-in policies of crates/kanbei-policy/src/lib.rs, and `decide` of the WebAssembly one around its guest.
-- Regular expressions are parameters; the call of the guest with the parsing of its answer is one too.
use kanbei.Base.{ℕ, Bool, true, false, ltb, List, [], ◌∷◌, length, if◌then◌else◌}
use kanbei.Policy.{store, transform, ok, err, plugin_error, Decide}

unfoldable pub store_all : Decide
store_all candidate = ok store

-- A compiled pattern, with the replacement: `is_match` and `replace_all`.
pub record Pattern : Type 0 where
  pub is_match : List ℕ → Bool
  pub replace_all : List ℕ → List ℕ

-- The loop over the patterns: the bytes so far, and whether one matched.
unfoldable pub redact : List Pattern → List ℕ → Bool → List ℕ × Bool
redact [] current matched = (current, matched)
redact (p ∷ ps) current matched =
    if p.is_match current then redact ps (p.replace_all current) true else redact ps current matched

unfoldable pub pattern_redaction : List Pattern → Decide
unfolding redact
pattern_redaction patterns candidate =
    let (bytes, matched) = redact patterns candidate.content false in
    if matched then ok (transform bytes) else ok store

unfoldable pub max_wasm_content_bytes : ℕ
max_wasm_content_bytes = 716800

-- `too_long` is the message of the length.
unfoldable pub wasm_decide : (ℕ → ℕ) → Decide → Decide
unfolding max_wasm_content_bytes
wasm_decide too_long call candidate =
    if ltb max_wasm_content_bytes (length candidate.content)
    then err (plugin_error (too_long (length candidate.content)))
    else call candidate
