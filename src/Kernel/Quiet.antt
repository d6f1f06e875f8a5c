-- ===== src/Kernel/Quiet.antt =====
-- What holds of a result if there is one, and the steps of the Kernel that change connections only.
use esthe_r.Base.{
  ℕ, zero, suc, ◌≡◌, refl, ap, ◌∙◌, Bool, false, ◌||◌, Option, none, some, ◌>>=◌, List, [], ◌∷◌,
  ◌==◌,
}
use esthe_r.Base.{subst}
use esthe_r.Base.Int.{ℤ}
use esthe_r.Structures.{Pcb}
use esthe_r.Commons.{CommonsList}
use esthe_r.Protocol.{Packet}
use esthe_r.Kernel.{KernelState, send, receive, take_packet}
use esthe_r.Kernel.Planning.{
  receive_result, store_code_page, store_pages, store_stack, request_pages, send_page_place,
  send_part, send_stack,
}

-- If there is a result, it satisfies the predicate.
pub Ensures : {A : Type 0} → (A → Type 0) → Option A → Type 0
Ensures P none = Unit
Ensures P (some x) = P x

pub Ensures-bind :
    {A B : Type 0} (Q : A → Type 0) (P : B → Type 0) (r : Option A) (f : A → Option B)
    → Ensures Q r
    → ((x : A) → Q x → Ensures P (f x))
    → Ensures P (r >>= f)
unfolding Ensures
Ensures-bind Q P none f q next = tt
Ensures-bind Q P (some x) f q next = next x q

pub Ensures-after :
    {A B : Type 0} (P : B → Type 0) (r : Option A) (f : A → Option B)
    → ((x : A) → Ensures P (f x))
    → Ensures P (r >>= f)
unfolding Ensures
Ensures-after P none f next = tt
Ensures-after P (some x) f next = next x

pub Ensures-some : {A : Type 0} (P : A → Type 0) (x : A) → P x → Ensures P (some x)
unfolding Ensures
Ensures-some P x q = q

pub Ensures-none : {A : Type 0} (P : A → Type 0) → Ensures P none
unfolding Ensures
Ensures-none P = tt

pub Ensures-weaken :
    {A : Type 0} (P Q : A → Type 0) (r : Option A)
    → ((x : A) → P x → Q x)
    → Ensures P r
    → Ensures Q r
unfolding Ensures
Ensures-weaken P Q none f p = tt
Ensures-weaken P Q (some x) f p = f x p

pub Ensures-result :
    {A : Type 0} (P : A → Type 0) (r : Option A) (x : A) → Ensures P r → r ≡ some x → P x
unfolding Ensures
Ensures-result P r x q e = subst (Ensures P) e q

-- The result is known where it is used.
pub known : {A : Type 0} (r : Option A) → Ensures (λ x. r ≡ some x) r
known none = Ensures-none (λ x. none ≡ some x)
known (some x) = Ensures-some (λ y. some x ≡ some y) x refl

-- Whether a pointer is in a list.
abbrev pub listed : ℕ → List ℕ → Bool
listed p [] = false
listed p (q ∷ qs) = (p == q) || listed p qs

-- The two states have the same lists and programs.
unfoldable pub Quiet : KernelState → KernelState → Type 0
Quiet k k' = k' ≡ record k { connection = k'.connection }

pub Quiet-trans : (a b c : KernelState) → Quiet a b → Quiet b c → Quiet a c
unfolding Quiet
Quiet-trans a b c e f = f ∙ ap (λ (k : KernelState). record k { connection = c.connection }) e

pub Quiet-refl : (k : KernelState) → Quiet k k
unfolding Quiet
Quiet-refl k = refl

pub send-Quiet : (p : Packet) (s : ℕ) (k : KernelState) → Quiet k (send p s k)
unfolding Quiet send
send-Quiet p s k = refl

Then : KernelState → {A : Type 0} → Option (A × KernelState) → Type 0
Then k {A} r = Ensures (λ (x : A × KernelState). Quiet k x.1) r

take_packet-Quiet : (s : ℕ) (ps : List Packet) (k : KernelState) → Then k (take_packet s ps k)
unfolding Quiet take_packet Ensures Then
take_packet-Quiet s [] k = tt
take_packet-Quiet s (p ∷ ps) k = refl

pub receive-Quiet :
    (s : ℕ) (k : KernelState) → Ensures (λ (r : Packet × KernelState). Quiet k r.1) (receive s k)
unfolding receive Then
receive-Quiet s k = take_packet-Quiet s (k.connection s).arriving k

pub receive_result-Quiet :
    (s : ℕ) (k : KernelState) → Ensures (λ (r : ℤ × KernelState). Quiet k r.1) (receive_result s k)
unfolding receive_result
receive_result-Quiet s k =
    Ensures-bind (λ (r : Packet × KernelState). Quiet k r.1) _ (receive s k) _ (receive-Quiet s k)
      (λ (packet, k') q. Ensures-after _ packet.payload _ (λ payload.
        Ensures-after _ _ _
          (λ (res, more). Ensures-some (λ (r : ℤ × KernelState). Quiet k r.1) (res, k') q)))

-- A packet that is made and sent.
sent-Quiet :
    {A : Type 0} (r : Option A) (packet : A → Packet) (s : ℕ) (k : KernelState)
    → Ensures (Quiet k) (r >>= λ a. some (send (packet a) s k))
sent-Quiet r packet s k =
    Ensures-after (Quiet k) r _ (λ a. Ensures-some (Quiet k) _ (send-Quiet (packet a) s k))

Quiet-bind :
    (k : KernelState) (r : Option KernelState) (f : KernelState → Option KernelState)
    → Ensures (Quiet k) r
    → ((k1 : KernelState) → Ensures (Quiet k1) (f k1))
    → Ensures (Quiet k) (r >>= f)
Quiet-bind k r f q next = Ensures-bind (Quiet k) (Quiet k) r f q (λ k1 q1.
    Ensures-weaken (Quiet k1) (Quiet k) (f k1) (λ k2 q2. Quiet-trans k k1 k2 q1 q2) (next k1))

pub request_pages-Quiet :
    (mem : ℕ) (pid : ℤ) (pages : ℕ) (k : KernelState)
    → Ensures (Quiet k) (request_pages mem pid pages k)
unfolding request_pages
request_pages-Quiet mem pid pages k = sent-Quiet _ _ mem k

send_page_place-Quiet :
    (mem : ℕ) (pid page size : ℤ) (k : KernelState)
    → Ensures (Quiet k) (send_page_place mem pid page size k)
unfolding send_page_place
send_page_place-Quiet mem pid page size k = sent-Quiet _ _ mem k

send_part-Quiet :
    (mem : ℕ) (pid : ℤ) (code : List ℕ) (tam size : ℕ) (k : KernelState)
    → Ensures (Quiet k) (send_part mem pid code tam size k)
unfolding send_part
send_part-Quiet mem pid code tam size k = sent-Quiet _ _ mem k

send_stack-Quiet :
    (lib : CommonsList) (mem : ℕ) (pcb : Pcb) (k : KernelState)
    → Ensures (Quiet k) (send_stack lib mem pcb k)
unfolding send_stack
send_stack-Quiet lib mem pcb k = sent-Quiet _ _ mem k

-- An answer that is not looked at.
pub answer-Quiet :
    {A : Type 0} (k : KernelState) (r : Option (A × KernelState))
    → Ensures (λ (x : A × KernelState). Quiet k x.1) r
    → Ensures (Quiet k) (r >>= λ (x : A × KernelState). some x.1)
answer-Quiet k r q = Ensures-bind _ (Quiet k) r _ q (λ x e. Ensures-some (Quiet k) x.1 e)

module _ (page_size : ℕ) (code : List ℕ) (pid : ℤ) (mem : ℕ) where
  store_code_page-Quiet :
      (pages pag tam : ℕ) (k : KernelState)
      → Ensures (Quiet k) (store_code_page page_size code pid mem pages pag tam k)
  unfolding store_code_page
  store_code_page-Quiet pages pag tam k =
      Quiet-bind k _ _ (send_page_place-Quiet mem pid _ _ k) (λ k1.
        Quiet-bind k1 _ _ (send_part-Quiet mem pid code tam _ k1)
          (λ k2. answer-Quiet k2 _ (receive_result-Quiet mem k2)))

  pub store_pages-Quiet :
      (pages rounds pag tam : ℕ) (k : KernelState)
      → Ensures (Quiet k) (store_pages page_size code pid mem pages rounds pag tam k)
  unfolding store_pages
  store_pages-Quiet pages zero pag tam k = Ensures-some (Quiet k) k (Quiet-refl k)
  store_pages-Quiet pages (suc rounds) pag tam k =
      Quiet-bind k _ _ (store_code_page-Quiet pages pag tam k)
        (λ k1. store_pages-Quiet pages rounds (suc pag) _ k1)

pub store_stack-Quiet :
    (lib : CommonsList) (mem : ℕ) (pcb : Pcb) (k : KernelState)
    → Ensures (Quiet k) (store_stack lib mem pcb k)
unfolding store_stack
store_stack-Quiet lib mem pcb k =
    Quiet-bind k _ _ (send_page_place-Quiet mem pcb.id_process _ _ k) (λ k1.
      Quiet-bind k1 _ _ (send_stack-Quiet lib mem pcb k1)
        (λ k2. answer-Quiet k2 _ (receive-Quiet mem k2)))
