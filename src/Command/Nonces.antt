-- ===== src/Command/Nonces.antt =====
-- command.py, `NonceTracker`: the nonces that were used last.
use homekey_household.Prelude.{
  ℕ, zero, suc, ◌*◌, Text, member, ltb, leb, length, drop, all, truthy, Bool, ◌&&◌, List, [], ◌∷◌,
  ◌++◌, if◌then◌else◌,
}
use Prim.Native.Nat.{max}
use homekey_household.Models.Errors.{
  Result, ok, raise, ◌>>=◌, ◌>>◌, guard, no_fresh_nonce, bad_nonce,
}
use homekey_household.Command.Encoding.{is_hex}

pub record NonceTracker : Type 0 where
  pub window : ℕ
  pub seen : List Text

abbrev pub replay_window : ℕ
replay_window = 32

abbrev pub nonce_bytes : ℕ
nonce_bytes = 16

unfoldable pub new_tracker : ℕ → NonceTracker
new_tracker window = record { window = max 1 window; seen = [] }

-- `self._seen.append(nonce)`, and the cut of the oldest window
unfoldable pub remember : NonceTracker → Text → NonceTracker
remember t nonce =
    let seen = t.seen ++ (nonce ∷ []) in
    record t { seen = if ltb (t.window * 2) (length seen) then drop t.window seen else seen }

-- `secrets.token_hex(num_bytes)` is the drawn text.
unfoldable pub new_nonce : ℕ → (ℕ → Text) → Result Text
new_nonce num_bytes token_hex = do guard (ltb 0 num_bytes) bad_nonce; ok (token_hex num_bytes)

-- One turn of the loop, with what the later turns give.
unfoldable pub try_nonce :
    NonceTracker → Text → Result (Text × NonceTracker) → Result (Text × NonceTracker)
try_nonce t nonce rest = if member nonce t.seen then rest else ok (nonce, remember t nonce)

-- The loop of `fresh_nonce`, by the turns left. `draw` gives the random source of each turn.
unfoldable pub attempts : ℕ → ℕ → (ℕ → ℕ → Text) → NonceTracker → Result (Text × NonceTracker)
unfolding try_nonce new_nonce
attempts zero num_bytes draw t = raise no_fresh_nonce
attempts (suc n) num_bytes draw t =
    let rest = attempts n num_bytes draw t in
    do nonce ← new_nonce num_bytes (draw n); try_nonce t nonce rest

unfoldable pub fresh_nonce : ℕ → (ℕ → ℕ → Text) → NonceTracker → Result (Text × NonceTracker)
unfolding attempts
fresh_nonce num_bytes draw t = attempts 8 num_bytes draw t

unfoldable pub is_plausible : Text → Bool
unfolding is_hex
is_plausible nonce = truthy nonce && leb (length nonce) 128 && all is_hex nonce
