-- ===== src/Kernel/Server/Clients.antt =====
-- buscar_proceso of Kernel/src/server.c: the client of a socket.
use esthe_r.Base.{
  ℕ, ◌≡◌, refl, ap, ◌∙◌, Bool, Option, none, some, List, [], ◌∷◌, ◌++◌, ◌==◌, Bool-cases,
  append-nil, inl, inr,
}
use esthe_r.Commons.{find?}
use esthe_r.Kernel.{TClient, KernelState}
use esthe_r.Kernel.Server.{scan, buscar_proceso}

-- The last of some clients, or another if there is none.
pub last_client : Option TClient → List TClient → Option TClient
last_client aux [] = aux
last_client aux (c ∷ cs) = last_client (some c) cs

-- A client, or another value.
pub or_else : Option TClient → Option TClient → Option TClient
or_else (some c) other = some c
or_else none other = other

abbrev pub is_client : ℕ → TClient → Bool
is_client client c = c.client_id == client

scan-find :
    (client : ℕ) (cs ds : List TClient) (next : Option TClient → Option TClient)
    (aux : Option TClient)
    → ((a : Option TClient) → next a ≡ or_else (find? (is_client client) ds) (last_client a ds))
    → scan client cs next aux
      ≡ or_else (find? (is_client client) (cs ++ ds)) (last_client aux (cs ++ ds))
unfolding scan or_else last_client
scan-find client [] ds next aux e = e aux
scan-find client (c ∷ cs) ds next aux e = elim (Bool-cases (c.client_id == client)) [
  | inl t ↦ rw t refl
  | inr t ↦ rw t (scan-find client cs ds next (some c) e)
]

-- The CPUs that are free, those that run a program, and the consoles.
pub clients : KernelState → List TClient
clients k = k.cpu_conectadas ++ (k.cpu_executing ++ k.consolas_conectadas)

-- buscar_proceso returns the first client with the socket, of the CPUs that are free, those that run,
-- and the consoles. If no client has the socket, it returns the last of all clients.
pub buscar_proceso-find :
    (client : ℕ) (k : KernelState)
    → buscar_proceso client k
      ≡ or_else (find? (is_client client) (clients k)) (last_client none (clients k))
unfolding buscar_proceso clients or_else last_client
buscar_proceso-find client k =
    scan-find client k.cpu_conectadas _ _ none (λ a.
      scan-find client k.cpu_executing _ _ a
        (λ b. scan-find client k.consolas_conectadas [] (λ aux. aux) b (λ c. refl)))
    ∙ ap
        (λ cs.
          or_else (find? (is_client client) (k.cpu_conectadas ++ (k.cpu_executing ++ cs)))
            (last_client none (k.cpu_conectadas ++ (k.cpu_executing ++ cs))))
        (append-nil k.consolas_conectadas)
