-- ===== src/Compiler/Correct/Meaning.antt =====
-- What a plain pattern matches: the positions where it may end, in the order in which they are tried.
use libsnobol.Base.{
  ℕ, ◌+◌, Bool, ◌&&◌, List, [], ◌∷◌, ◌++◌, Option, none, some, ltb, leb, ◌==◌, if◌then◌else◌,
  length, drop,
}
use libsnobol.Compiler.Ast.{
  Node, Parts, AnchorType, anchor_start, anchor_end, literal, concat, alt, capture, assign, len,
  dynamic_eval, anchor, rem, rpos, rtab, pos, tab, nil, cons,
}
use libsnobol.Strings.{has_prefix}
use libsnobol.Vm.Bytes.{Bytes}
use libsnobol.Vm.Cursor.{skip_codepoints, walk_back, walk_on}

abbrev pub one_if : Bool → ℕ → List ℕ
one_if b p = if b then p ∷ [] else []

abbrev pub from_option : Option ℕ → List ℕ
from_option none = []
from_option (some p) = p ∷ []

-- the ends of `f` from each position
unfoldable pub from_each : (ℕ → List ℕ) → List ℕ → List ℕ
from_each f [] = []
from_each f (p ∷ ps) = f p ++ from_each f ps

unfoldable pub anchored : AnchorType → Bytes → ℕ → Bool
anchored anchor_start s p = p == 0
anchored anchor_end s p = p == length s

-- TAB moves to the position behind `n` code points, which lies behind the cursor and, for `n` above
-- 0, before the end of the subject.
unfoldable pub tab_ends : ℕ → Bytes → ℕ → List ℕ
tab_ends n s p =
    let target = walk_on n s 0 in
    if leb (length s) target && ltb 0 n then [] else one_if (leb p target) target

unfoldable mutual
  unfolding from_each anchored tab_ends

  pub ends : Node → Bytes → ℕ → List ℕ
  ends (literal text) s p = one_if (has_prefix text (drop p s)) (p + length text)
  ends (concat parts) s p = ends_parts parts s p
  ends (alt left right) s p = ends left s p ++ ends right s p
  ends (capture reg sub) s p = ends sub s p
  ends (assign var reg) s p = p ∷ []
  ends (len n) s p = from_option (skip_codepoints n s p)
  ends (dynamic_eval expr) s p = ends expr s p
  ends (anchor atype) s p = one_if (anchored atype s p) p
  ends rem s p = length s ∷ []
  ends (rpos n) s p = one_if (p == walk_back n s (length s)) p
  ends (rtab n) s p = one_if (leb p (walk_back n s (length s))) (walk_back n s (length s))
  ends (pos n) s p = one_if (p == walk_on n s 0) p
  ends (tab n) s p = tab_ends n s p
  ends _ s p = []

  pub ends_parts : Parts → Bytes → ℕ → List ℕ
  ends_parts nil s p = p ∷ []
  ends_parts (cons part parts) s p = from_each (ends_parts parts s) (ends part s p)
