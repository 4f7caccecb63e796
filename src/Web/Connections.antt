-- ===== src/Web/Connections.antt =====
-- src/python_tty/frontends/web/core.py: the bound on websockets.
use python_tty.Prelude.{
  ℕ, suc, ◌≤◌, ◌≡◌, refl, ap, Option, none, some, List, [], ◌∷◌, if-cases, leb, length,
  remove_first, ◌==◌, arith, Option-cases, inl, inr,
}
use python_tty.Web.{WebApp, WebConfig, create_app, open_socket, left_by, leave_socket}

-- Websockets come and go in any order.
pub data SocketEvent : Type 0 where
  opens leaves : ℕ → SocketEvent

abbrev pub socket_event : SocketEvent → WebApp → WebApp
socket_event (opens ws) a = open_socket ws a
socket_event (leaves ws) a = leave_socket ws a

abbrev pub socket_events : List SocketEvent → WebApp → WebApp
socket_events [] a = a
socket_events (e ∷ es) a = socket_events es (socket_event e a)

-- The counter counts the websockets that are let in, and keeps to the bound.
abbrev pub IsBounded : WebConfig → WebApp → Type 0
IsBounded c a =
    (a.config ≡ c)
    × (a.ws_connections ≡ length a.connected)
    × (length a.connected ≤ c.ws_max_connections)

remove_first-length :
    (w : ℕ) (xs ys : List ℕ) → remove_first (λ x. x == w) xs ≡ some ys → length xs ≡ suc (length ys)
unfolding remove_first
remove_first-length w [] ys h = ground arith
remove_first-length w (x ∷ xs) ys h = elim (Option-cases (remove_first (λ k. k == w) xs)) [
  | inl n ↦ ground (arith, h, n)
  | inr (zs, f) ↦ ground (arith, h, f, remove_first-length w xs zs f)
]

open_socket-IsBounded :
    (c : WebConfig) (ws : ℕ) (a : WebApp) → IsBounded c a → IsBounded c (open_socket ws a)
unfolding open_socket
open_socket-IsBounded c ws a (same, counts, le) =
    if-cases (IsBounded c) (leb a.config.ws_max_connections a.ws_connections)
      (record a { refused = ws ∷ a.refused })
      (record a { ws_connections = suc a.ws_connections; connected = ws ∷ a.connected })
      (λ b. (same, counts, le))
      (λ b. (
        same,
        omega (arith, counts),
        ground (arith, b, counts, ap (λ d. d.ws_max_connections) same),
      ))

left_by-IsBounded :
    (c : WebConfig) (o : Option (List ℕ)) (a : WebApp)
    → ((cs : List ℕ) → o ≡ some cs → length a.connected ≡ suc (length cs))
    → IsBounded c a
    → IsBounded c (left_by o a)
left_by-IsBounded c none a f b = b
left_by-IsBounded c (some cs) a f (same, counts, le) =
    (same, omega (arith, counts, f cs refl), omega (arith, le, f cs refl))

leave_socket-IsBounded :
    (c : WebConfig) (ws : ℕ) (a : WebApp) → IsBounded c a → IsBounded c (leave_socket ws a)
unfolding leave_socket
leave_socket-IsBounded c ws a b =
    left_by-IsBounded c (remove_first (λ w. w == ws) a.connected) a
      (λ cs h. remove_first-length ws a.connected cs h) b

socket_event-IsBounded :
    (c : WebConfig) (e : SocketEvent) (a : WebApp) → IsBounded c a → IsBounded c (socket_event e a)
socket_event-IsBounded c (opens ws) a b = open_socket-IsBounded c ws a b
socket_event-IsBounded c (leaves ws) a b = leave_socket-IsBounded c ws a b

socket_events-kept :
    (c : WebConfig) (es : List SocketEvent) (a : WebApp)
    → IsBounded c a
    → IsBounded c (socket_events es a)
socket_events-kept c [] a b = b
socket_events-kept c (e ∷ es) a b =
    socket_events-kept c es (socket_event e a) (socket_event-IsBounded c e a b)

-- However websockets come and go, the counter of a new application is the number of those that are
-- let in and have not left, and that number never passes `ws_max_connections`.
pub socket_events-IsBounded :
    (c : WebConfig) (es : List SocketEvent) → IsBounded c (socket_events es (create_app c))
socket_events-IsBounded c es = socket_events-kept c es (create_app c) (refl, refl, omega arith)
