-- ===== src/Messages/Tallies.antt =====
-- pkg/sfu/session.go: the peers of a session as an unordered collection, and what a log sends to each of
-- them.
use mathlib.Core.Logic.{∥∥₁_elim}
use mathlib.Core.List.{append_assoc, Perm, Permᴰ}
use mathlib.Core.Quot
use mathlib.Core.Quot.{Quot}
use native.Mathlib.Nat.{ℕ_set}
use choice.Base.{
  if◌then◌else◌, ◌==◌, nat_eq, string_eq, ℕ, zero, suc, ◌+◌, String, ◌≡◌, refl, sym, ap, ◌∙◌, ◌||◌,
  Option, none, some, List, [], ◌∷◌, ◌++◌, arith,
}
use choice.Store.{Env, Peer, Subscriber, Notification, Effect, notify, data_message}
use choice.Messages.Broadcast.{channel}

-- The entries of a map from the ids of peers, in no order.
abbrev pub Peers : Type 0
Peers = Quot (Perm {A = String × ℕ})

unfoldable pub count : (String × ℕ → ℕ) → List (String × ℕ) → ℕ
count n [] = 0
count n (e ∷ peers) = n e + count n peers

pub count-Permᴰ :
    (n : String × ℕ → ℕ) {xs ys : List (String × ℕ)} → Permᴰ xs ys → count n xs ≡ count n ys
unfolding count
count-Permᴰ n Permᴰ.nil = refl
count-Permᴰ n (Permᴰ.cons e h) = omega (arith, ap n e, count-Permᴰ n h)
count-Permᴰ n (Permᴰ.swap e f) = omega (arith, ap n e, ap n f)
count-Permᴰ n (Permᴰ.trans h g) = count-Permᴰ n h ∙ count-Permᴰ n g

-- A sum over the entries does not depend on their order.
unfoldable pub sum_over : (String × ℕ → ℕ) → Peers → ℕ
sum_over n = Quot.lift ℕ_set (count n) (λ xs ys h. ∥∥₁_elim h (ℕ_set _ _) (count-Permᴰ n))

-- How often a broadcast reaches a WebSocket, or a data channel, through an entry.
abbrev pub reached : (ℕ → Peer) → String → ℕ → String × ℕ → ℕ
reached table left_out conn (id, p) =
    if id == left_out || (table p).closed then 0 else if (table p).conn == conn then 1 else 0

abbrev pub is_on : ℕ → Option ℕ → ℕ
is_on c none = 0
is_on c (some d) = if d == c then 1 else 0

abbrev pub data_reached : Env → (ℕ → Peer) → (ℕ → Subscriber) → String → ℕ → String × ℕ → ℕ
data_reached env table subscribers sender c (id, p) =
    if id == sender then 0 else is_on c (channel env table subscribers p)

-- The parts of a log.
unfoldable pub each {ℓ} : {A : Type ℓ} → (Effect → List A) → List Effect → List A
each f [] = []
each f (e ∷ log) = f e ++ each f log

abbrev pub message_on : ℕ → Effect → List Notification
message_on conn (notify c n) = if c == conn then n ∷ [] else []
message_on conn _ = []

abbrev pub data_on : ℕ → Effect → List (List ℕ)
data_on c (data_message d content) = if d == c then content ∷ [] else []
data_on c _ = []

abbrev pub no_message : Effect → List Effect
no_message (notify c n) = []
no_message e = e ∷ []

abbrev pub no_data : Effect → List Effect
no_data (data_message d content) = []
no_data e = e ∷ []

abbrev pub times {ℓ} : {A : Type ℓ} → ℕ → A → List A
times zero a = []
times (suc n) a = a ∷ times n a

pub each-append {ℓ} :
    {A : Type ℓ} (f : Effect → List A) (xs ys : List Effect)
    → each f (xs ++ ys) ≡ each f xs ++ each f ys
unfolding each
each-append f [] ys = refl
each-append f (x ∷ xs) ys =
    ap (λ l. f x ++ l) (each-append f xs ys) ∙ sym (append_assoc (f x) (each f xs) (each f ys))

pub times-add {ℓ} : {A : Type ℓ} (m n : ℕ) (a : A) → times (m + n) a ≡ times m a ++ times n a
times-add zero n a = ap (λ k. times k a) (let e : 0 + n ≡ n = omega arith in e)
times-add (suc m) n a =
    ap (λ k. times k a) (let e : suc m + n ≡ suc (m + n) = omega arith in e)
    ∙ ap (λ l. a ∷ l) (times-add m n a)
