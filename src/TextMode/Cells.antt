-- ===== src/TextMode/Cells.antt =====
-- What the loops of `Clear` and `Scroll` leave in video memory.
use hydra_os.Common.{
  ℕ, zero, suc, ◌+◌, ◌-◌, ◌*◌, ◌≤◌, ◌≡◌, ◌∙◌, inl, inr, ap, Bool, ◌&&◌, ltb, leb, if◌then◌else◌,
  arith, lt_cases,
}
use hydra_os.TextMode.{
  Screen, screen_width, screen_height, store, fill_row, fill_rows, copy_row, copy_rows, clear,
  scroll, cell, space, update_cursor,
}

-- The cell at `q` is one of the `n` cells from `p` on.
abbrev pub in_run : ℕ → ℕ → ℕ → Bool
in_run p n q = leb p q && ltb q (p + n)

fill_row_lem :
    (n x y v : ℕ) (m : ℕ → ℕ) (q : ℕ)
    → fill_row n x y v m q ≡ (if in_run (screen_width * y + x) n q then v else m q)
unfolding fill_row
fill_row_lem zero x y v m q = ground arith
fill_row_lem (suc n) x y v m q =
    fill_row_lem n (x + 1) y v (store m (screen_width * y + x) v) q ∙ unfold store in ground arith

fill_rows_lem :
    (n y v : ℕ) (m : ℕ → ℕ) (q : ℕ)
    → fill_rows n y v m q ≡ (if in_run (screen_width * y) (screen_width * n) q then v else m q)
unfolding fill_rows
fill_rows_lem zero y v m q = ground arith
fill_rows_lem (suc n) y v m q = ground (
  arith,
  fill_rows_lem n (y + 1) v (fill_row screen_width 0 y v m) q,
  fill_row_lem screen_width 0 y v m q,
)

-- The row below is not written while it is read.
copy_row_lem :
    (n x y : ℕ) (m : ℕ → ℕ) (q : ℕ)
    → x + n ≤ screen_width
    → copy_row n x y m q ≡ (if in_run (screen_width * y + x) n q then m (q + screen_width) else m q)
unfolding copy_row store
copy_row_lem zero x y m q le = ground arith
copy_row_lem (suc n) x y m q le =
    copy_row_lem n (x + 1) y (store m (screen_width * y + x) (m (screen_width * (y + 1) + x))) q
      (omega arith)
    ∙ elim (lt_cases q (screen_width * y + x)) [
      | inl lt ↦ ground arith
      | inr (inl e) ↦ ground (arith, ap m (below e))
      | inr (inr lt) ↦ ground arith
    ]
  where
    below : q ≡ screen_width * y + x → screen_width * (y + 1) + x ≡ q + screen_width
    below e = omega arith

copy_rows_lem :
    (n y : ℕ) (m : ℕ → ℕ) (q : ℕ)
    → copy_rows n y m q
      ≡ (if in_run (screen_width * y) (screen_width * n) q then m (q + screen_width) else m q)
unfolding copy_rows
copy_rows_lem zero y m q = ground arith
copy_rows_lem (suc n) y m q =
    copy_rows_lem n (y + 1) (copy_row screen_width 0 y m) q
    ∙ ground (
      arith,
      copy_row_lem screen_width 0 y m q (omega arith),
      copy_row_lem screen_width 0 y m (q + screen_width) (omega arith),
    )

-- Clear blanks the 2000 cells of the screen in the current colours and changes no other.
pub clear_cells :
    (s : Screen) (q : ℕ)
    → (clear s).video_memory q ≡ (if ltb q 2000 then cell s space else s.video_memory q)
unfolding clear update_cursor
clear_cells s q = ground (arith, fill_rows_lem screen_height 0 (cell s space) s.video_memory q)

-- Scroll moves every row up by one, blanks the last row in the current colours, and changes no
-- cell beyond the screen.
pub scroll_cells :
    (s : Screen) (q : ℕ)
    → (scroll s).video_memory q ≡ (
        if ltb q 1920
        then s.video_memory (q + 80)
        else if ltb q 2000
        then cell s space
        else s.video_memory q)
unfolding scroll
scroll_cells s q = ground (
  arith,
  fill_row_lem screen_width 0 (screen_height - 1) (cell s space)
      (copy_rows (screen_height - 1) 0 s.video_memory) q,
  copy_rows_lem (screen_height - 1) 0 s.video_memory q,
)
