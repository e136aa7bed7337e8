-- ===== src/Parser/Reports/Depth.antt =====
-- The depth of the calls of core/src/parser.c: five for each token are enough, unless there is a
-- lexical error.
use libsnobol.Base.{
  ℕ, zero, suc, ◌+◌, ◌*◌, ◌≤◌, ◌≡◌, refl, Bool, true, false, List, [], none, some, inl, inr, arith,
  length,
}
use libsnobol.Compiler.Ast.{Node}
use libsnobol.Lexer.{lexer_create}
use libsnobol.Lexer.Weight.{HasFailed, IsWithin}
use libsnobol.Parser.{ParserError, Ending, gives, stops, endless, parser_create}
use libsnobol.Parser.Calls.{
  Level, statement, alternation, alternatives, concatenation, repeated, primary,
}
use libsnobol.Parser.Grammar.{body, parse, cleared, parser_parse}
use libsnobol.Parser.Reports.{IsCalm, Settles, Reports, Steady, bind, widen, failing, either_mode}
use libsnobol.Parser.Reports.Calls.{Builds}
use libsnobol.Parser.Reports.Grammar.{
  parse_concatenation-Reports, parse_alternatives-Reports, statement_label-Reports,
  labelled_statement-Reports, trailing-Reports,
}
use libsnobol.Parser.Reports.Primary.{parse_primary-Reports, parse_repetition-Reports}
use libsnobol.Parser.Trees.{IsBuilt, AllBuilt, StartsBuilt}
use libsnobol.Vm.Bytes.{Bytes}

called :
    {b : Bool} {s : Bytes} {k : ℕ} {j : Node → ℕ} (n : ℕ) (level : Level)
    → Reports b s k j (body (parse n) level) IsBuilt
    → Reports b s k j (parse (suc n) level) IsBuilt
unfolding parse
called n level h = record { ends = λ p calm t. h.ends p calm t }

primary_call :
    {b : Bool} {s : Bytes} {k : ℕ} (n : ℕ)
    → Builds b s k (parse n)
    → Reports b s (suc k) (λ _. k) (parse (suc n) primary) IsBuilt
unfolding body
primary_call n builds = called n primary (parse_primary-Reports (parse n) builds)

repeated_call :
    {b : Bool} {s : Bytes} {k : ℕ} (n : ℕ)
    → Reports b s (suc k) (λ _. k) (parse n primary) IsBuilt
    → Reports b s (suc k) (λ _. k) (parse (suc n) repeated) IsBuilt
unfolding body
repeated_call n strict = called n repeated (parse_repetition-Reports (parse n) strict)

concatenation_call :
    {b : Bool} {s : Bytes} {k : ℕ} (n : ℕ) (parts : List Node)
    → Builds b s k (parse n)
    → Reports b s (suc k) (λ _. k) (parse n repeated) IsBuilt
    → AllBuilt parts
    → Steady b s (suc k) (parse (suc n) (concatenation parts)) IsBuilt
unfolding body
concatenation_call n parts builds strict h =
    called n (concatenation parts) (parse_concatenation-Reports (parse n) parts builds strict h)

alternatives_call :
    {b : Bool} {s : Bytes} {k : ℕ} (n : ℕ) (left : Node)
    → Builds b s k (parse n)
    → IsBuilt left
    → Steady b s (suc k) (parse (suc n) (alternatives left)) IsBuilt
unfolding body
alternatives_call n left builds h =
    called n (alternatives left) (parse_alternatives-Reports (parse n) left builds h)

alternation_call :
    {b : Bool} {s : Bytes} {k : ℕ} (n : ℕ)
    → Steady b s k (parse n (concatenation [])) IsBuilt
    → ((left : Node) → IsBuilt left → Steady b s k (parse n (alternatives left)) IsBuilt)
    → Steady b s k (parse (suc n) alternation) IsBuilt
unfolding body
alternation_call n first rest = called n alternation (bind first rest)

statement_call :
    {b : Bool} {s : Bytes} {k : ℕ} (n : ℕ)
    → Builds b s k (parse n)
    → Steady b s (suc k) (parse n alternation) IsBuilt
    → Steady b s (suc k) (parse (suc n) statement) IsBuilt
unfolding body
statement_call n builds whole = called n statement (
    bind statement_label-Reports (λ name _. labelled_statement-Reports (parse n) name builds whole))

-- After a lexical error every depth will do.
failed-Builds : {s : Bytes} (n k : ℕ) → Builds true s k (parse n)
unfolding parse Settles StartsBuilt AllBuilt
failed-Builds zero k level h = record { ends = λ p calm t. t }
failed-Builds (suc n) k primary h = failing {k = 1} (primary_call n (failed-Builds n 0))
failed-Builds (suc n) k repeated h =
    failing {k = 1} (repeated_call n (failing (failed-Builds n 0 primary tt)))
failed-Builds (suc n) k (concatenation parts) h =
    failing {k = 1}
      (concatenation_call n parts (failed-Builds n 0) (failing (failed-Builds n 0 repeated tt)) h)
failed-Builds (suc n) k (alternatives left) h =
    failing {k = 1} (alternatives_call n left (failed-Builds n 0) h)
failed-Builds (suc n) k alternation h =
    alternation_call n (failed-Builds n k (concatenation []) tt)
      (λ left g. failed-Builds n k (alternatives left) g)
failed-Builds (suc n) k statement h =
    failing {k = 1} (statement_call n (failed-Builds n 0) (failed-Builds n 1 alternation tt))

-- Calls of depth `n` or more are deep enough.
abbrev IsEnough : Bytes → ℕ → ℕ → Type 0
IsEnough s k n = (m : ℕ) → n ≤ m → Builds false s k (parse m)

no_token : (s : Bytes) → IsEnough s 0 0
no_token s m le level h = record {
  ends = λ p calm t. elim t [
    | inl failed ↦ either_mode _ _ _ _ ((failed-Builds m 0 level h).ends p calm failed)
    | inr w ↦ absurd (omega (arith, w.below))
  ];
}

module _ (s : Bytes) (k n : ℕ) (enough : IsEnough s k n) where
  a_repeated :
      (m : ℕ) → n ≤ m → Reports false s (suc k) (λ _. k) (parse (suc (suc m)) repeated) IsBuilt
  a_repeated m le = repeated_call (suc m) (primary_call m (enough m le))

  a_concatenation :
      (m : ℕ) (parts : List Node)
      → n ≤ m
      → AllBuilt parts
      → Steady false s (suc k) (parse (suc (suc (suc m))) (concatenation parts)) IsBuilt
  a_concatenation m parts le h =
      concatenation_call (suc (suc m)) parts (enough (suc (suc m)) (omega (arith, le)))
        (a_repeated m le) h

  an_alternation :
      (m : ℕ) → n ≤ m → Steady false s (suc k) (parse (suc (suc (suc (suc m)))) alternation) IsBuilt
  unfolding AllBuilt
  an_alternation m le =
      alternation_call (suc (suc (suc m))) (a_concatenation m [] le tt) (λ left h.
        alternatives_call (suc (suc m)) left (enough (suc (suc m)) (omega (arith, le))) h)

  deeper : (m : ℕ) → n ≤ m → Builds false s (suc k) (parse (suc (suc (suc (suc (suc m))))))
  unfolding StartsBuilt
  deeper m le primary h =
      widen (primary_call (suc (suc (suc (suc m)))) (enough _ (omega (arith, le))))
  deeper m le repeated h = widen (a_repeated (suc (suc (suc m))) (omega (arith, le)))
  deeper m le (concatenation parts) h = a_concatenation (suc (suc m)) parts (omega (arith, le)) h
  deeper m le (alternatives left) h =
      alternatives_call (suc (suc (suc (suc m)))) left (enough _ (omega (arith, le))) h
  deeper m le alternation h = an_alternation (suc m) (omega (arith, le))
  deeper m le statement h =
      statement_call (suc (suc (suc (suc m)))) (enough _ (omega (arith, le))) (an_alternation m le)

five_more :
    (s : Bytes) (k n : ℕ) → IsEnough s k n → (m : ℕ) → n + 5 ≤ m → Builds false s (suc k) (parse m)
five_more s k n enough (suc (suc (suc (suc (suc m))))) le =
    deeper s k n enough m (omega (arith, le))
five_more s k n enough zero le = absurd (omega (arith, le))
five_more s k n enough (suc zero) le = absurd (omega (arith, le))
five_more s k n enough (suc (suc zero)) le = absurd (omega (arith, le))
five_more s k n enough (suc (suc (suc zero))) le = absurd (omega (arith, le))
five_more s k n enough (suc (suc (suc (suc zero)))) le = absurd (omega (arith, le))

five_for_each : (s : Bytes) (k : ℕ) → IsEnough s k (5 * k)
five_for_each s zero m le = no_token s m (omega arith)
five_for_each s (suc k) m le = five_more s k (5 * k) (five_for_each s k) m (omega (arith, le))

-- A tree is built and no error is left, or an error is left; the depth is only exceeded after a
-- lexical error.
abbrev pub EndsWell : Ending Node → Type 0
EndsWell (gives ast p) = IsBuilt ast × (p.failure ≡ none)
EndsWell (stops p) = (e : ParserError) × (p.failure ≡ some e)
EndsWell (endless p) = HasFailed p.lexer

settled : (s : Bytes) (j : Node → ℕ) (x : Ending Node) → Settles false s j IsBuilt x → EndsWell x
unfolding Settles
settled s j (gives ast p) (h, calm, t) = (h, calm.no_failure)
settled s j (stops p) h = h
settled s j (endless p) h = h

-- On any source, with a depth of calls of five for each byte and five more, `snobol_parser_parse` gives
-- a tree and leaves no error, or gives no tree and leaves an error, unless the lexer has met an error
-- and the depth is exceeded. In the tree no node is missing, each register that is captured into, read
-- by an assignment or used as a key is below `MAX_VARS`, one that is assigned to or emitted is at most
-- `MAX_VARS`, and the bounds of a repetition are ordered and not negative.
pub parser_parse-EndsWell :
    (source : Bytes) (fuel : ℕ)
    → 5 * (length source + 1) ≤ fuel
    → EndsWell (parser_parse fuel (parser_create (lexer_create source)))
unfolding parser_parse cleared parser_create lexer_create StartsBuilt
parser_parse-EndsWell source fuel enough =
    let p = cleared (parser_create (lexer_create source)) in
    let calm : IsCalm p = record { no_failure = refl; in_range = tt } in
    let within : IsWithin source (length source + 1) (lexer_create source) = record {
      live = refl;
      same_source = refl;
      inside = omega arith;
      below = omega arith;
    } in
    let builds = five_for_each source (length source + 1) fuel enough in
    settled source _ _ ((bind (builds statement tt) trailing-Reports).ends p calm (inr within))
