-- ===== src/Common/Copy.antt =====
-- Buffers that are filled by `copy_from_slice`, a piece at a time.
use Prim.Native.Nat.{ℕ, zero, suc, ◌+◌, ◌≤◌}
use mathlib.Core.Path.{◌≡◌, refl, ap, sym, ◌∙◌}
use mathlib.Core.List.{List, [], ◌∷◌, ◌++◌}
use native.Mathlib.Omega.{arith}
use trelis.Common.Lists.{length, take, drop, All, length-append}
use trelis.Common.Slices.{slice, slice_piece, take-append_length, drop-append_length, drop-drop}

-- `buf[at..at + bytes.len()].copy_from_slice(bytes)`.
unfoldable pub copy_at : ℕ → List ℕ → List ℕ → List ℕ
copy_at at bytes buf = take at buf ++ (bytes ++ drop (at + length bytes) buf)

-- Filling a buffer from the left: a copy that starts where the last one ended.
pub copy_at-append :
    (xs ys zs : List ℕ) (n : ℕ)
    → length xs ≡ n
    → copy_at n ys (xs ++ zs) ≡ xs ++ (ys ++ drop (length ys) zs)
unfolding copy_at
copy_at-append xs ys zs n h = rw (
  take-append_length xs zs n h,
  sym (drop-drop n (length ys) (xs ++ zs)),
  drop-append_length xs zs n h,
)

pub copy_at-zero : (xs buf : List ℕ) → copy_at 0 xs buf ≡ xs ++ drop (length xs) buf
unfolding copy_at
copy_at-zero xs buf = ap (λ (n : ℕ). xs ++ drop n buf) (omega arith)

pub append_assoc : (xs ys zs : List ℕ) → xs ++ (ys ++ zs) ≡ (xs ++ ys) ++ zs
append_assoc [] ys zs = refl
append_assoc (x ∷ xs) ys zs = ap (◌∷◌ x) (append_assoc xs ys zs)

pub drop_everything : (n : ℕ) (xs : List ℕ) → length xs ≤ n → drop n xs ≡ []
drop_everything zero [] h = refl
drop_everything zero (x ∷ xs) h = absurd (omega arith)
drop_everything (suc n) [] h = refl
drop_everything (suc n) (x ∷ xs) h = drop_everything n xs (omega arith)

pub append_nil : (xs : List ℕ) → xs ++ [] ≡ xs
append_nil [] = refl
append_nil (x ∷ xs) = ap (◌∷◌ x) (append_nil xs)

-- `buf[offset..offset + size].copy_from_slice(bytes); offset += size;` for each piece in turn, a
-- piece being the size of an array and its bytes.
unfoldable pub write_pieces : ℕ → List (ℕ × List ℕ) → List ℕ → List ℕ
write_pieces offset [] buf = buf
write_pieces offset (piece ∷ pieces) buf =
    write_pieces (offset + piece.0) pieces (copy_at offset piece.1 buf)

unfoldable pub joined : List (ℕ × List ℕ) → List ℕ
joined [] = []
joined (piece ∷ pieces) = piece.1 ++ joined pieces

abbrev pub IsSized : ℕ × List ℕ → Type 0
IsSized piece = length piece.1 ≡ piece.0

write_pieces-append :
    (pieces : List (ℕ × List ℕ)) (done buf : List ℕ) (n : ℕ)
    → All IsSized pieces
    → length done ≡ n
    → write_pieces n pieces (done ++ buf)
      ≡ done ++ (joined pieces ++ drop (length (joined pieces)) buf)
unfolding write_pieces joined
write_pieces-append [] done buf n sized h = refl
write_pieces-append (piece ∷ pieces) done buf n sized h =
    ap (write_pieces (n + piece.0) pieces)
      (copy_at-append done piece.1 buf n h ∙ append_assoc done piece.1 (drop (length piece.1) buf))
    ∙ write_pieces-append pieces (done ++ piece.1) (drop (length piece.1) buf) (n + piece.0) sized.1
        (omega (arith, length-append done piece.1, sized.0))
    ∙ sym (append_assoc done piece.1 _)
    ∙ ap (λ (t : List ℕ). done ++ t)
        (append_assoc piece.1 (joined pieces) _
          ∙ ap (λ (t : List ℕ). (piece.1 ++ joined pieces) ++ t)
              (drop-drop (length piece.1) (length (joined pieces)) buf
                ∙ ap (λ (t : ℕ). drop t buf) (sym (length-append piece.1 (joined pieces)))))

unfoldable pub total_size : List (ℕ × List ℕ) → ℕ
total_size [] = 0
total_size (piece ∷ pieces) = piece.0 + total_size pieces

pub length-joined :
    (pieces : List (ℕ × List ℕ)) → All IsSized pieces → length (joined pieces) ≡ total_size pieces
unfolding joined total_size
length-joined [] sized = refl
length-joined (piece ∷ pieces) sized =
    omega (arith, length-append piece.1 (joined pieces), sized.0, length-joined pieces sized.1)

-- A buffer as long as the pieces together holds them one after the other and nothing else.
pub write_pieces_lem :
    (pieces : List (ℕ × List ℕ)) (buf : List ℕ)
    → All IsSized pieces
    → length buf ≡ total_size pieces
    → write_pieces 0 pieces buf ≡ joined pieces
write_pieces_lem pieces buf sized h =
    write_pieces-append pieces [] buf 0 sized refl
    ∙ ap (λ (t : List ℕ). joined pieces ++ t)
        (drop_everything (length (joined pieces)) buf (omega (arith, length-joined pieces sized)))
    ∙ append_nil (joined pieces)

-- Where the first parts are equally long, both parts agree.
pub append_inj :
    (xs ys zs ws : List ℕ) → length xs ≡ length ys → xs ++ zs ≡ ys ++ ws → (xs ≡ ys) × (zs ≡ ws)
append_inj [] [] zs ws h e = (refl, e)
append_inj [] (y ∷ ys) zs ws h e = absurd (omega arith)
append_inj (x ∷ xs) [] zs ws h e = absurd (omega arith)
append_inj (x ∷ xs) (y ∷ ys) zs ws h e =
    let rest = append_inj xs ys zs ws (omega arith) (cc e) in (cc (e, rest.0), rest.1)

unfoldable pub sizes : List (ℕ × List ℕ) → List ℕ
sizes [] = []
sizes (piece ∷ pieces) = piece.0 ∷ sizes pieces

-- Pieces of the same sizes that join to the same bytes are the same.
pub joined_inj :
    (pieces pieces' : List (ℕ × List ℕ))
    → All IsSized pieces
    → All IsSized pieces'
    → sizes pieces ≡ sizes pieces'
    → joined pieces ≡ joined pieces'
    → pieces ≡ pieces'
unfolding joined sizes
joined_inj [] [] h h' s e = refl
joined_inj [] (q ∷ qs) h h' s e = cc s
joined_inj (q ∷ qs) [] h h' s e = cc s
joined_inj ((n, xs) ∷ qs) ((m, ys) ∷ rs) h h' s e =
    cc (same_size, both.0, joined_inj qs rs h.1 h'.1 (cc s) both.1)
  where
    same_size : n ≡ m
    same_size = cc s

    both : (xs ≡ ys) × (joined qs ≡ joined rs)
    both = append_inj xs ys (joined qs) (joined rs) (h.0 ∙ (same_size ∙ sym h'.0)) e

joined-append :
    (pieces pieces' : List (ℕ × List ℕ))
    → joined (pieces ++ pieces') ≡ joined pieces ++ joined pieces'
unfolding joined
joined-append [] pieces' = refl
joined-append (piece ∷ pieces) pieces' =
    ap (λ (t : List ℕ). piece.1 ++ t) (joined-append pieces pieces')
    ∙ append_assoc piece.1 (joined pieces) (joined pieces')

-- The slice at the offset of a piece is that piece.
pub slice-joined :
    (pieces : List (ℕ × List ℕ)) (piece : ℕ × List ℕ) (pieces' : List (ℕ × List ℕ))
    → All IsSized pieces
    → IsSized piece
    → slice (joined (pieces ++ (piece ∷ pieces'))) (total_size pieces) piece.0 ≡ piece.1
unfolding joined
slice-joined pieces piece pieces' sized one =
    ap (λ (t : List ℕ). slice t (total_size pieces) piece.0)
      (joined-append pieces (piece ∷ pieces'))
    ∙ slice_piece (joined pieces) piece.1 (joined pieces') (total_size pieces) piece.0
        (length-joined pieces sized) one
