-- ===== src/Auth/Race.antt =====
-- Two refreshes with one token that both read it before either writes.
use flash_core.Common.{
  ℕ, ◌<◌, ◌≡◌, refl, ap, ◌∙◌, Bool, true, false, none, some, [], ◌∷◌, ◌==◌, ◌||◌, is_some,
  if◌then◌else◌, arith, ==_refl,
}
use flash_core.Common.Table.{
  find, exists-find, update_where, find-update_where, find-append, find-or_none,
}
use flash_core.Store.{ok}
use flash_core.Auth.Rows.{User, RefreshToken, Accounts, Crypto, Limits, Draw}
use flash_core.Auth.Repository.{has_hash, has_token_id, has_user_id, revoke_row}
use flash_core.Auth.Service.{token_row, signed_in, check_refresh, finish_refresh}
use flash_core.Auth.Rotation.{rotated, check_refresh_lem, finish_refresh_lem}

module _ (crypto : Crypto) (limits : Limits) where
  -- Neither the id nor the hash of the row that `draw` makes is in use.
  abbrev pub collides : Draw → RefreshToken → User → RefreshToken → Bool
  collides draw t u x =
      has_token_id draw.row_id x
      || has_hash (token_row crypto limits draw u.id t.family_id).token_hash x

  module _ (draw : Draw) (s : Accounts) (t : RefreshToken) (u : User) where
    find-rotated_new :
        find (has_token_id draw.row_id) s.tokens ≡ none
        → find (has_token_id draw.row_id) (rotated crypto limits draw t u s).tokens
          ≡ some (token_row crypto limits draw u.id t.family_id)
    find-rotated_new unused = ground (
      arith,
      find-update_where (has_token_id t.id) (has_token_id draw.row_id) (revoke_row draw.now)
          (λ x. refl) s.tokens,
      find-append (has_token_id draw.row_id)
          (update_where (has_token_id t.id) (revoke_row draw.now) s.tokens)
          (token_row crypto limits draw u.id t.family_id ∷ []),
      ==_refl draw.row_id,
    )

    -- A rotation keeps every other row that is found by its id.
    find-rotated_other :
        (j : ℕ) (x : RefreshToken)
        → find (has_token_id j) s.tokens ≡ some x
        → find (has_token_id j) (rotated crypto limits draw t u s).tokens
          ≡ some (if has_token_id t.id x then revoke_row draw.now x else x)
    find-rotated_other j x there = ground (
      arith,
      find-update_where (has_token_id t.id) (has_token_id j) (revoke_row draw.now) (λ x. refl)
          s.tokens,
      find-append (has_token_id j) (update_where (has_token_id t.id) (revoke_row draw.now) s.tokens)
          (token_row crypto limits draw u.id t.family_id ∷ []),
    )

    still_there :
        (j : ℕ)
        → is_some (find (has_token_id j) s.tokens) ≡ true
        → is_some (find (has_token_id j) (rotated crypto limits draw t u s).tokens) ≡ true
    still_there j there = ground (
      arith,
      find-update_where (has_token_id t.id) (has_token_id j) (revoke_row draw.now) (λ x. refl)
          s.tokens,
      find-append (has_token_id j) (update_where (has_token_id t.id) (revoke_row draw.now) s.tokens)
          (token_row crypto limits draw u.id t.family_id ∷ []),
    )

  other_id :
      (raw j : ℕ) (s : Accounts) (t : RefreshToken)
      → find (has_hash raw) s.tokens ≡ some t
      → find (has_token_id j) s.tokens ≡ none
      → (j == t.id) ≡ false
  other_id raw j s t found unused =
      ground (arith, exists-find (has_hash raw) (has_token_id j) s.tokens t found)

  id_unused :
      (draw : Draw) (t : RefreshToken) (u : User) (s : Accounts)
      → find (collides draw t u) s.tokens ≡ none
      → find (has_token_id draw.row_id) s.tokens ≡ none
  id_unused draw t u s unused =
      (find-or_none (has_token_id draw.row_id)
        (has_hash (token_row crypto limits draw u.id t.family_id).token_hash) s.tokens
        (ap is_some unused)).0

  -- Two refreshes with the same token that both pass the checks before either rotates it are both
  -- accepted, and both new tokens of the family are live: the second use is not noticed. The ids and
  -- hashes drawn are unused.
  pub refresh_race :
      (first second : Draw) (raw : ℕ) (s : Accounts) (t : RefreshToken) (u : User)
      → find (has_hash (crypto.hash_token raw)) s.tokens ≡ some t
      → t.revoked_at ≡ none
      → first.now < t.expires_at
      → second.now < t.expires_at
      → find (has_user_id t.user_id) s.users ≡ some u
      → find (collides first t u) s.tokens ≡ none
      → find (collides second t u) (rotated crypto limits first t u s).tokens ≡ none
      → let one = finish_refresh crypto limits first (t, u) s in
        let two = finish_refresh crypto limits second (t, u) one.1 in
        (check_refresh crypto limits first raw s ≡ (ok (t, u), s))
        × (check_refresh crypto limits second raw s ≡ (ok (t, u), s))
        × (one.0 ≡ ok (signed_in crypto limits first u t.family_id))
        × (two.0 ≡ ok (signed_in crypto limits second u t.family_id))
        × (find (has_token_id first.row_id) two.1.tokens
            ≡ some (token_row crypto limits first u.id t.family_id))
        × (find (has_token_id second.row_id) two.1.tokens
            ≡ some (token_row crypto limits second u.id t.family_id))
  refresh_race first second raw s t u found live in_time in_time' owner unused unused' =
      let there : is_some (find (has_token_id t.id) s.tokens) ≡ true =
        exists-find (has_hash (crypto.hash_token raw)) (has_token_id t.id) s.tokens t found
          (==_refl t.id) in
      let s1 = rotated crypto limits first t u s in
      let one = finish_refresh_lem crypto limits first s t u there unused in
      let two =
        finish_refresh_lem crypto limits second s1 t u (still_there first s t u t.id there)
          unused' in
      let distinct =
        other_id (crypto.hash_token raw) first.row_id s t found (id_unused first t u s unused) in
      rw (one, two)
        (
          check_refresh_lem crypto limits first raw s t u found live in_time owner,
          check_refresh_lem crypto limits second raw s t u found live in_time' owner,
          refl,
          refl,
          find-rotated_other second s1 t u first.row_id
                (token_row crypto limits first u.id t.family_id)
                (find-rotated_new first s t u (id_unused first t u s unused))
              ∙ rw distinct refl,
          find-rotated_new second s1 t u (id_unused second t u s1 unused'),
        )
