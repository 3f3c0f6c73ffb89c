-- ===== src/Mcp/Keys.antt =====
-- The keys of calls in `MCPProtocolServer` of mcp_protocol.py, and the sets of them.
use opencode_orchestrator.Prelude.{
  ◌≡◌, refl, sym, ap, subst, true, false, List, [], ◌∷◌, arith, any, keep, Bool-cases, inl, inr,
}
use opencode_orchestrator.Text.Laws.{text_eq-eq, text_eq_refl}
use opencode_orchestrator.Value.{pos, negsuc, Value, null, bool, int, float, str, arr, obj}
use opencode_orchestrator.Mcp.{same_key, is_hashable, has_key, drop_key, add_key}

pub same_key-eq : (a b : Value) → same_key a b ≡ true → a ≡ b
unfolding same_key
same_key-eq null null h = refl
same_key-eq (bool true) (bool true) h = refl
same_key-eq (bool false) (bool false) h = refl
same_key-eq (int (pos a)) (int (pos b)) h = ground arith
same_key-eq (int (negsuc a)) (int (negsuc b)) h = ground arith
same_key-eq (float a) (float b) h = ground arith
same_key-eq (str a) (str b) h = ap str (text_eq-eq a b h)
same_key-eq _ _ h = cc

pub same_key_refl : (a : Value) → is_hashable a ≡ true → same_key a a ≡ true
unfolding same_key is_hashable
same_key_refl null h = refl
same_key_refl (bool true) h = refl
same_key_refl (bool false) h = refl
same_key_refl (int (pos a)) h = ground arith
same_key_refl (int (negsuc a)) h = ground arith
same_key_refl (float a) h = ground arith
same_key_refl (str a) h = text_eq_refl a
same_key_refl (arr vs) h = cc
same_key_refl (obj fs) h = cc

-- a key that is not `other` is no key that `other` is
other_key :
    (id other k : Value)
    → same_key other id ≡ false
    → same_key other k ≡ true
    → same_key id k ≡ false
other_key id other k n gone = elim (Bool-cases (same_key id k)) [
  | inl same ↦
      let back : same_key other id ≡ true =
        subst (λ x. same_key other x ≡ true) (sym (same_key-eq id k same)) gone in
      cc (n, back)
  | inr differs ↦ differs
]

pub has_key-drop_key :
    (id other : Value) (keys : List Value)
    → same_key other id ≡ false
    → has_key id keys ≡ true
    → has_key id (drop_key other keys) ≡ true
unfolding has_key drop_key any keep
has_key-drop_key id other [] n h = cc
has_key-drop_key id other (k ∷ ks) n h = elim (Bool-cases (same_key other k)) [
  | inl gone ↦
      rw (gone, drop_key, keep)
        (has_key-drop_key id other ks n (rw (other_key id other k n gone) at h))
  | inr stays ↦ rw (stays, drop_key, keep) (ground (arith, has_key-drop_key id other ks n))
]

pub has_key-add_key :
    (id other : Value) (keys : List Value)
    → has_key id keys ≡ true
    → has_key id (add_key other keys) ≡ true
unfolding has_key any
has_key-add_key id other keys h = ground arith

pub add_key-has_key :
    (id : Value) (keys : List Value) → is_hashable id ≡ true → has_key id (add_key id keys) ≡ true
unfolding has_key any
add_key-has_key id keys h = ground (arith, same_key_refl id h)
