-- ===== src/Direct/Traces.antt =====
-- direct.py: chains of requests, and the clients that they go through.
use homekey_household.Prelude.{All, List, [], ◌∷◌, ◌++◌, ◌≡◌, refl, inl, inr}
use homekey_household.Models.Errors.{Result, ok, raise}
use homekey_household.Coordinator.Effects.{Result-cases}
use homekey_household.Direct.Client.{Exchange, request}
use homekey_household.Direct.Connect.{Client, Call, Sent, Traced, after}
use homekey_household.Direct.Commands.{sends}

-- Every request goes through a client with the property `K`, and what is returned of the chain satisfies `P`.
abbrev pub Sends {ℓ} : {A : Type ℓ} → (Client → Type 0) → (A → Type 0) → Traced A → Type 0
Sends K P (sent, ok v) = All (λ s. K s.client) sent × P v
Sends K P (sent, raise e) = All (λ s. K s.client) sent

pub All-append :
    (K : Client → Type 0) (ss ts : List Sent)
    → All (λ s. K s.client) ss
    → All (λ s. K s.client) ts
    → All (λ s. K s.client) (ss ++ ts)
All-append K [] ts h k = k
All-append K (s ∷ ss) ts (x, h) k = (x, All-append K ss ts h k)

pub Sends-prefix {ℓ} :
    {A : Type ℓ} (K : Client → Type 0) (P : A → Type 0) (sent : List Sent) (t : Traced A)
    → All (λ s. K s.client) sent
    → Sends K P t
    → Sends K P (sent ++ t.0, t.1)
Sends-prefix K P sent (more, raise e) h k = All-append K sent more h k
Sends-prefix K P sent (more, ok v) h (k, p) = (All-append K sent more h k, p)

pub after-Sends {ι κ} :
    {A : Type ι} {B : Type κ} (K : Client → Type 0) (P : A → Type 0) (Q : B → Type 0) (t : Traced A)
    (rest : A → Traced B)
    → Sends K P t
    → ((v : A) → P v → Sends K Q (rest v))
    → Sends K Q (after t rest)
after-Sends K P Q (sent, raise e) rest h k = h
after-Sends K P Q (sent, ok v) rest (h, p) k = Sends-prefix K Q sent (rest v) h (k v p)

-- One request of a known client.
abbrev pub Any {ℓ} : {A : Type ℓ} → A → Type 0
Any v = Unit

pub sends-Sends :
    (K : Client → Type 0) (client : Client) (call : Call) (e : Exchange)
    → K client
    → Sends K Any (sends client call e)
unfolding sends
sends-Sends K client call e h = elim (Result-cases (request e)) [
  | inl (v, good) ↦ rw good ((h, tt), tt)
  | inr (e', bad) ↦ rw bad (h, tt)
]

pub All-weaken :
    (K L : Client → Type 0) (sent : List Sent)
    → ((client : Client) → K client → L client)
    → All (λ s. K s.client) sent
    → All (λ s. L s.client) sent
All-weaken K L [] f h = tt
All-weaken K L (s ∷ sent) f (x, h) = (f s.client x, All-weaken K L sent f h)

-- A chain that sends nothing.
pub silent-Sends {ℓ} :
    {A : Type ℓ} (K : Client → Type 0) (P : A → Type 0) (r : Result A)
    → ((v : A) → r ≡ ok v → P v)
    → Sends K P ([], r)
silent-Sends K P (raise e) h = tt
silent-Sends K P (ok v) h = (tt, h v refl)

pub Sends-sent {ℓ} :
    {A : Type ℓ} (K : Client → Type 0) (P : A → Type 0) (t : Traced A)
    → Sends K P t
    → All (λ s. K s.client) t.0
Sends-sent K P (sent, ok v) (h, p) = h
Sends-sent K P (sent, raise e) h = h
