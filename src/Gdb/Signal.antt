-- ===== src/Gdb/Signal.antt =====
-- m68k-stub.c: computeSignal, the signal number for an exception vector.
use rosco_cli.Prelude.{ℕ, ◌||◌, ◌&&◌, ◌==◌, leb, if◌then◌else◌}

unfoldable pub compute_signal : ℕ → ℕ
compute_signal v =
    if v == 2 || v == 3
    then 10
    else if v == 4
    then 4
    else if v == 5 || v == 6 || v == 7
    then 8
    else if v == 8
    then 11
    else if v == 9
    then 5
    else if v == 10 || v == 11
    then 4
    else if v == 13
    then 10
    else if v == 31
    then 2
    else if v == 33
    then 5
    else if v == 40
    then 8
    else if v == 47
    then 5
    else if leb 48 v && leb v 54
    then 8
    else 7
