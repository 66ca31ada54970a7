-- ===== src/Ratchet/Keyring.antt =====
-- How long `rotate_keypair` of crates/trelis-ratchet/src/state.rs keeps a keypair.
use trelis.Common.{
  ℕ, suc, ◌+◌, ◌≤◌, ◌<◌, ◌≡◌, ◌≢◌, refl, sym, ap, subst, arith, inl, inr, List, [], ◌∷◌, ◌++◌, none,
  true, leb, Bool-cases, if◌then◌else◌, length, drop, length-append, In,
}
use trelis.Ratchet.Crypto.{Crypto}
use trelis.Ratchet.State.{
  KemRatchet, rotate_keypair, find_keypair, find_previous, max_previous_keypairs,
}

module _ {A : Type 0} where
  In-append : (x : A) (xs ys : List A) → In x (xs ++ (x ∷ ys))
  In-append x [] ys = inl refl
  In-append x (y ∷ xs) ys = inr (In-append x xs ys)

  append_assoc : (xs ys zs : List A) → (xs ++ ys) ++ zs ≡ xs ++ (ys ++ zs)
  append_assoc [] ys zs = refl
  append_assoc (x ∷ xs) ys zs = ap (◌∷◌ x) (append_assoc xs ys zs)

  -- `x` stands in the list with at most `n` entries behind it.
  pub Near : A → ℕ → List A → Type 0
  Near x n l = (xs ys : List A) × (l ≡ xs ++ (x ∷ ys)) × (length ys ≤ n)

  longer : (y : A) (n : ℕ) (ys : List A) → length ys ≤ n → length (ys ++ (y ∷ [])) ≤ suc n
  longer y n ys h = omega (arith, length-append ys (y ∷ []))

  pushed :
      (x y : A) (n : ℕ) (xs ys : List A)
      → n < 4
      → length ys ≤ n
      → Near x (suc n) (
          (if leb max_previous_keypairs (length (xs ++ (x ∷ ys)))
            then drop 1 (xs ++ (x ∷ ys))
            else xs ++ (x ∷ ys))
          ++ (y ∷ []))
  unfolding Near
  pushed x y n xs ys h k = elim (Bool-cases (leb max_previous_keypairs (length (xs ++ (x ∷ ys))))) [
    | inr room ↦ rw (room) (xs, ys ++ (y ∷ []), append_assoc xs (x ∷ ys) (y ∷ []), longer y n ys k)
    | inl full ↦ rw (full) (evicted xs full)
  ]
    where
      evicted :
          (xs : List A)
          → leb max_previous_keypairs (length (xs ++ (x ∷ ys))) ≡ true
          → Near x (suc n) (drop 1 (xs ++ (x ∷ ys)) ++ (y ∷ []))
      evicted [] full = absurd (ground arith)
      evicted (z ∷ zs) full =
          (zs, ys ++ (y ∷ []), append_assoc zs (x ∷ ys) (y ∷ []), longer y n ys k)

  Near-In : (x : A) (n : ℕ) (l : List A) → Near x n l → In x l
  unfolding Near
  Near-In x n l (xs, ys, e, k) = subst (In x) (sym e) (In-append x xs ys)

find_previous-In :
    {K : Type 0} (id : ℕ) (k : K) (l : List (ℕ × K)) → In (id, k) l → find_previous id l ≢ none
unfolding find_previous
find_previous-In id k [] h e = h
find_previous-In id k ((j, k') ∷ l) (inl same) e = ground (arith, ap (λ (p : ℕ × _). p.0) same)
find_previous-In id k ((j, k') ∷ l) (inr more) e = ground (arith, find_previous-In id k l more)

module _ (c : Crypto) where
  unfoldable pub rotate_all : List c.Keypair → KemRatchet c.Keypair → KemRatchet c.Keypair
  rotate_all [] s = s
  rotate_all (k ∷ ks) s = rotate_all ks (rotate_keypair c k s)

  rotate_keypair-Near :
      (p : ℕ × c.Keypair) (n : ℕ) (k : c.Keypair) (s : KemRatchet c.Keypair)
      → n < 4
      → Near p n s.previous_keypairs
      → Near p (suc n) (rotate_keypair c k s).previous_keypairs
  unfolding rotate_keypair Near
  rotate_keypair-Near p n k s h (xs, ys, e, few) =
      subst
        (λ (l : List (ℕ × c.Keypair)). Near p (suc n) (
          (if leb max_previous_keypairs (length l) then drop 1 l else l)
          ++ ((s.our_key_id, s.our_keypair) ∷ [])))
        (sym e) (pushed p (s.our_key_id, s.our_keypair) n xs ys h few)

  rotate_keypair-start :
      (k : c.Keypair) (s : KemRatchet c.Keypair)
      → Near (s.our_key_id, s.our_keypair) 0 (rotate_keypair c k s).previous_keypairs
  unfolding rotate_keypair Near
  rotate_keypair-start k s = (_, [], refl, omega arith)

  rotate_all-Near :
      (p : ℕ × c.Keypair) (n : ℕ) (ks : List c.Keypair) (s : KemRatchet c.Keypair)
      → n + length ks ≤ 4
      → Near p n s.previous_keypairs
      → In p (rotate_all ks s).previous_keypairs
  unfolding rotate_all
  rotate_all-Near p n [] s h near = Near-In p n s.previous_keypairs near
  rotate_all-Near p n (k ∷ ks) s h near =
      rotate_all-Near p (suc n) ks (rotate_keypair c k s) (omega arith)
        (rotate_keypair-Near p n k s (omega arith) near)

  -- A keypair is kept, under its id, through five rotations: after one to five of them it is
  -- still among the previous keypairs, and a lookup of its id finds a keypair.
  pub find_keypair-rotate_all :
      (k : c.Keypair) (ks : List c.Keypair) (s : KemRatchet c.Keypair)
      → length ks ≤ 4
      → In (s.our_key_id, s.our_keypair) (rotate_all (k ∷ ks) s).previous_keypairs
        × (find_keypair s.our_key_id (rotate_all (k ∷ ks) s) ≢ none)
  unfolding find_keypair
  find_keypair-rotate_all k ks s h =
      let kept : In (s.our_key_id, s.our_keypair) (rotate_all (k ∷ ks) s).previous_keypairs =
        unfold rotate_all in
        rotate_all-Near (s.our_key_id, s.our_keypair) 0 ks (rotate_keypair c k s) (omega arith)
          (rotate_keypair-start k s) in
      (kept, λ e. ground (arith, find_previous-In _ _ _ kept))
