-- ===== src/IntMapping/Examples.antt =====
-- `std_int_translate` on the table of its header's example.
use opx_common_utils.Prelude.{ℕ, ◌+◌, ◌*◌, ◌≡◌, refl}
use opx_common_utils.Prelude.Int.{ℤ, pos, negsuc}
use opx_common_utils.IntMapping.{int_translate}
use opx_common_utils.IntMapping.Laws.{Translated, int_translate-Translated}

-- The table of the header's example, `{ 10, 20 }, { 11, 21 }`: its first value is not translated.
rows : ℕ → ℕ → ℤ
rows i j = pos (10 + i + j * 10)

int_translate_runs : int_translate (pos 10) 0 1 rows 2 ≡ negsuc 0
unfolding int_translate rows
int_translate_runs = refl

int_translate-Translated_example : Translated rows 0 1 0 2 (int_translate (pos 10) 0 1 rows 2)
int_translate-Translated_example = int_translate-Translated (pos 10) 0 1 rows 2
