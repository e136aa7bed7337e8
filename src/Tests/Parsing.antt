-- ===== src/Tests/Parsing.antt =====
-- Pattern source through the parser of core/src/parser.c.
use libsnobol.Base.{arith}
use libsnobol.Lexer.{lexer_create}
use libsnobol.Parser.{parser_create, codes}
use libsnobol.Parser.Grammar.{parser_parse}
use libsnobol.Parser.Reports.Depth.{EndsWell, parser_parse-EndsWell}
use libsnobol.Vm.Bytes.{Bytes}

-- a label, a capture, a repetition, an emission and a goto
abbrev labelled_source : Bytes
labelled_source = codes "L: 'a' | @x repeat('b', 1, 3) EMIT(@x) :(L)"

parser_parse-EndsWell_example :
    EndsWell (parser_parse 220 (parser_create (lexer_create labelled_source)))
parser_parse-EndsWell_example = parser_parse-EndsWell labelled_source 220 (omega arith)
