-- ===== src/Pipe/Table/Gone.antt =====
-- pipe_free of Kernel/ipc/pipe.c: what becomes of the id.
use tpe_so_2023_tp.Base.{
  ℕ, ◌∙◌, Bool, minus_one, ◌≡◌, refl, arith, none, some, Option, ℤ, pos, pos_part, leb_ℤ, ltb_ℤ,
  ◌&&◌, if◌then◌else◌, true, false, update, ap,
}
use tpe_so_2023_tp.Kernel.{Kernel}
use tpe_so_2023_tp.Pipe.Buffer.{Pipe}
use tpe_so_2023_tp.Pipe.Table.{get_pipe, pipe_free, empty_fd_table, freed_pipe, max_pipes}

update_gone : (t : ℕ → Option Pipe) (i : ℕ) → update t i none i ≡ none
update_gone t i = ground arith

guarded : {A : Type 0} (b : Bool) (x : Option A) → x ≡ none → (if b then x else none) ≡ none
guarded true x e = e
guarded false x e = refl

missing_pipe : (k : Kernel) (id : ℤ) → get_pipe k id ≡ none → pipe_free k id ≡ (minus_one, k)
unfolding pipe_free
missing_pipe k id e = rw (pipe_free, e) refl

found_pipe :
    (k : Kernel) (id : ℤ) (p : Pipe)
    → get_pipe k id ≡ some p
    → pipe_free k id ≡ (pos 0, freed_pipe k id p)
unfolding pipe_free
found_pipe k id p e = rw (pipe_free, e) refl

freed_pipe-get_pipe : (k : Kernel) (id : ℤ) (p : Pipe) → get_pipe (freed_pipe k id p) id ≡ none
freed_pipe-get_pipe k id p =
    guarded (leb_ℤ (pos 0) id && ltb_ℤ id (pos max_pipes)) _
      (update_gone (empty_fd_table k id minus_one minus_one).pipe_table (pos_part id))

-- No pipe has the id of a pipe that was freed.
pub pipe_free-get_pipe : (k : Kernel) (id : ℤ) → get_pipe (pipe_free k id).1 id ≡ none
pipe_free-get_pipe k id = by_pipe (get_pipe k id) refl
  where
    by_pipe : (r : Option Pipe) → get_pipe k id ≡ r → get_pipe (pipe_free k id).1 id ≡ none
    by_pipe none e = ap (λ z. get_pipe z.1 id) (missing_pipe k id e) ∙ e
    by_pipe (some p) e =
        ap (λ z. get_pipe z.1 id) (found_pipe k id p e) ∙ freed_pipe-get_pipe k id p
