-- ===== src/Cocoa/KeySchedule/Inputs.antt =====
-- What the hashes of crates/trelis-cocoa/src/key_schedule.rs bind of their inputs.
use trelis.Common.{
  ℕ, ◌%◌, ◌<◌, ◌^◌, ◌≡◌, refl, sym, ap, ◌∙◌, arith, List, [], ◌∷◌, ◌++◌, All, length,
}
use trelis.Common.Bytes.{to_le_bytes, from_le_bytes, length-to_le_bytes, from_le_bytes-to_le_bytes}
use trelis.Common.Copy.{append_inj, append_assoc}
use trelis.Cocoa.KeySchedule.{feed, user_list, round_hash_input}

abbrev pub IsId : List ℕ → Type 0
IsId user = length user ≡ 32

users_inj :
    (us vs : List (List ℕ)) (rest rest' : List ℕ)
    → All IsId us
    → All IsId vs
    → length us ≡ length vs
    → feed (λ u. u) us ++ rest ≡ feed (λ u. u) vs ++ rest'
    → (us ≡ vs) × (rest ≡ rest')
unfolding feed
users_inj [] [] rest rest' hu hv h e = (refl, e)
users_inj [] (v ∷ vs) rest rest' hu hv h e = absurd (omega arith)
users_inj (u ∷ us) [] rest rest' hu hv h e = absurd (omega arith)
users_inj (u ∷ us) (v ∷ vs) rest rest' hu hv h e =
    let both =
      append_inj u v (feed (λ x. x) us ++ rest) (feed (λ x. x) vs ++ rest') (hu.0 ∙ sym hv.0) (
        append_assoc u (feed (λ x. x) us) rest
        ∙ (e ∙ sym (append_assoc v (feed (λ x. x) vs) rest'))) in
    let tail = users_inj us vs rest rest' hu.1 hv.1 (omega arith) both.1 in
    (cc (both.0, tail.0), tail.1)

-- A list of users and what follows it are determined by the bytes: its length is written first.
user_list_inj :
    (us vs : List (List ℕ)) (rest rest' : List ℕ)
    → All IsId us
    → All IsId vs
    → length us < 2 ^ 32
    → length vs < 2 ^ 32
    → user_list us ++ rest ≡ user_list vs ++ rest'
    → (us ≡ vs) × (rest ≡ rest')
unfolding user_list
user_list_inj us vs rest rest' hu hv bu bv e = users_inj us vs rest rest' hu hv same both.1
  where
    n : ℕ
    n = length us % 2 ^ 32

    m : ℕ
    m = length vs % 2 ^ 32

    both :
        (to_le_bytes 4 n ≡ to_le_bytes 4 m) × (feed (λ u. u) us ++ rest ≡ feed (λ u. u) vs ++ rest')
    both =
        append_inj (to_le_bytes 4 n) (to_le_bytes 4 m) (feed (λ u. u) us ++ rest)
          (feed (λ u. u) vs ++ rest') (length-to_le_bytes 4 n ∙ sym (length-to_le_bytes 4 m))
          (append_assoc (to_le_bytes 4 n) (feed (λ u. u) us) rest
            ∙ (e ∙ sym (append_assoc (to_le_bytes 4 m) (feed (λ u. u) vs) rest')))

    same : length us ≡ length vs
    same = omega (
      arith,
      from_le_bytes-to_le_bytes 4 n (omega arith),
      from_le_bytes-to_le_bytes 4 m (omega arith),
      ap from_le_bytes both.0,
    )

-- Different rounds hash different bytes: the root label and the lists of removed and of added users
-- can be told apart, so no user can be moved from one list to the other. A label and a user id have
-- 32 bytes, and each list has less than 2^32 users.
pub round_hash_input_inj :
    (root root' : List ℕ) (removed removed' added added' : List (List ℕ))
    → length root ≡ 32
    → length root' ≡ 32
    → All IsId removed
    → All IsId removed'
    → All IsId added
    → All IsId added'
    → length removed < 2 ^ 32
    → length removed' < 2 ^ 32
    → length added < 2 ^ 32
    → length added' < 2 ^ 32
    → round_hash_input root removed added ≡ round_hash_input root' removed' added'
    → (root ≡ root') × ((removed ≡ removed') × (added ≡ added'))
unfolding round_hash_input
round_hash_input_inj root root' removed removed' added added' hr hr' h h' k k' b b' c c' e =
    let first =
      append_inj root root' (user_list removed ++ user_list added)
        (user_list removed' ++ user_list added') (hr ∙ sym hr') e in
    let second =
      user_list_inj removed removed' (user_list added) (user_list added') h h' b b' first.1 in
    let third =
      user_list_inj added added' [] [] k k' c c' (ap (λ (t : List ℕ). t ++ []) second.1) in
    (first.0, (second.0, third.0))
