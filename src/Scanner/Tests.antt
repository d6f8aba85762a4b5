-- ===== src/Scanner/Tests.antt =====
-- sscanf.c on its own text, and the theorem at an expression.
use good_command.Common.{◌≡◌, refl, [], ◌∷◌, ◌++◌, value}
use good_command.Clib.Bytes.{codes}
use good_command.Clib.Print
use good_command.Clib.Scan
use good_command.Expression.{blanks, text}
use good_command.Expression.Samples.{sample}
use good_command.Scanner
use good_command.Scanner.Laws.{tokens_expr, print_tokens-tokens_expr}

main_prints : Scanner.main ≡ value (codes "13\n-\n1\n+\n2\n*\n30\n+\n(\n4\n*\n5\n-\n6\n)\n*\n7\n\n")
unfolding Scanner.main Scanner.print_tokens Scanner.token_loop Scanner.is_legal_op Scan.scan_int
    Print.print_int
main_prints = refl

print_tokens-tokens_expr_example :
    Scanner.print_tokens (text sample (blanks 2 [])) ≡ value (tokens_expr sample [] ++ 10 ∷ [])
print_tokens-tokens_expr_example = print_tokens-tokens_expr sample 2
