-- ===== src/Repl/Calls.antt =====
-- How many requests an operation of the client makes, and where it sends them.
use mathlib.Core.List.{append-nil, append_assoc}
use conuredb.Common.{
  ℕ, zero, suc, ◌≤◌, ◌≡◌, ◌∙◌, refl, sym, ap, subst, ◌⊎◌, inl, inr, true, Option, none, some, List,
  [], ◌∷◌, ◌++◌, ◌==◌, ==_iff, if◌then◌else◌, arith, length, Bool-cases,
}
use conuredb.Common.Bytes.{Bytes}
use conuredb.Common.Text.{codes, cut_before}
use conuredb.Api.{Method, get, put, delete}
use conuredb.Repl.{
  Base, Call, Answer, failed, responded, Response, World, Network, after_last_colon, all_digits,
  port_of, default_port, with_leader, ask, request, client_get, client_put, client_delete,
}

after_last_colon-digits : (p : Bytes) → all_digits p ≡ true → after_last_colon p ≡ none
unfolding after_last_colon
after_last_colon-digits [] d = refl
after_last_colon-digits (b ∷ bs) d = ground (arith, after_last_colon-digits bs, d)

after_last_colon-append :
    (x p : Bytes) → all_digits p ≡ true → after_last_colon (x ++ (58 ∷ p)) ≡ some p
unfolding after_last_colon
after_last_colon-append [] p d = rw (after_last_colon-digits p d)
after_last_colon-append (b ∷ bs) p d = rw (after_last_colon-append bs p d)

default_port-digits : (host : Bytes) → all_digits (default_port (port_of host)) ≡ true
unfolding port_of
default_port-digits host =
    elim (after_last_colon host)
      as (λ o.
        all_digits (default_port (elim o [ none ↦ [] | some t ↦ if all_digits t then t else [] ]))
        ≡ true) [ none ↦ refl | some t ↦ ground arith ]

-- Bases with the port of the first one, or 8081.
abbrev Towards : Base → Base → Type 0
Towards first base =
    (base.rest ≡ first.rest)
    × ((base.host ≡ first.host)
        ⊎ ((l : Bytes) × (base.host ≡ cut_before 58 l ++ (58 ∷ default_port (port_of first.host)))))

default_port_idem : (p : Bytes) → default_port (default_port p) ≡ default_port p
default_port_idem [] = refl
default_port_idem (b ∷ bs) = refl

port_of-append : (x p : Bytes) → all_digits p ≡ true → port_of (x ++ (58 ∷ p)) ≡ p
unfolding port_of
port_of-append x p d = ground (arith, after_last_colon-append x p d, d)

kept_port :
    (first base : Base)
    → Towards first base
    → default_port (port_of base.host) ≡ default_port (port_of first.host)
kept_port first base (r, inl e) = ap (λ h. default_port (port_of h)) e
kept_port first base (r, inr (l, e)) =
    let port = default_port (port_of first.host) in
    ap (λ h. default_port (port_of h)) e
    ∙ (ap default_port (port_of-append (cut_before 58 l) port (default_port-digits first.host))
        ∙ default_port_idem (port_of first.host))

-- The base behind a hint: the one before where the hint is empty, and otherwise the host that the hint
-- names before its first colon, with the port of the first base, or 8081.
abbrev pub led_to : Base → Base → Bytes → Base
led_to first base [] = base
led_to first base (b ∷ bs) = record {
  rest = first.rest;
  host = cut_before 58 (b ∷ bs) ++ (58 ∷ default_port (port_of first.host));
}

Base-eq : (a b : Base) → a.rest ≡ b.rest → a.host ≡ b.host → a ≡ b
Base-eq a b p q = cc

with_leader-led_to :
    (first base : Base) (l : Bytes) → Towards first base → with_leader l base ≡ led_to first base l
unfolding with_leader
with_leader-led_to first base [] t = refl
with_leader-led_to first base (b ∷ bs) t =
    Base-eq (with_leader (b ∷ bs) base) (led_to first base (b ∷ bs)) t.0
      (ap (λ p. cut_before 58 (b ∷ bs) ++ (58 ∷ p)) (kept_port first base t))

led_to-Towards :
    (first base : Base) (l : Bytes) → Towards first base → Towards first (led_to first base l)
led_to-Towards first base [] t = t
led_to-Towards first base (b ∷ bs) t = (refl, inr (b ∷ bs, refl))

-- A request of one operation.
abbrev pub Asks : Base → Method → Bytes → Option Bytes → Call → Type 0
Asks base method key body c =
    (c.base ≡ base) × (c.path ≡ codes "/kv") × (c.method ≡ method) × (c.key ≡ key) × (c.body ≡ body)

-- Requests from a base on, with their answers: each but the last is answered by a 409, and the next one
-- goes where its hint leads.
abbrev pub Trail : Base → Method → Bytes → Option Bytes → Base → List (Call × Answer) → Type 0
Trail first method key body base [] = Unit {0}
Trail first method key body base ((c, a) ∷ more) =
    Asks base method key body c
    × ((more ≡ [])
        ⊎ ((r : Response) × (a ≡ responded r)
            × (r.status ≡ 409)
            × Trail first method key body (led_to first base r.leader) more))

-- The requests made since are such a trail from the base, and not many.
abbrev pub Since :
    {W : Type 0} → Method → Bytes → Option Bytes → ℕ → Base → World W → World W → Type 0
Since method key body n base w after =
    (new : List (Call × Answer)) × (after.calls ≡ w.calls ++ new)
    × Trail base method key body base new
    × (length new ≤ n)

Answer-cases : (a : Answer) → ((e : Bytes) × (a ≡ failed e)) ⊎ ((r : Response) × (a ≡ responded r))
Answer-cases (failed e) = inl (e, refl)
Answer-cases (responded r) = inr (r, refl)

module _ {W : Type 0} (net : Network W) (method : Method) (key : Bytes) (body : Option Bytes) where
  abbrev call : Base → Call
  call base = record { base = base; path = codes "/kv"; method = method; key = key; body = body }

  -- A request ends the operation or, answered by a 409, is followed by the rest of it.
  request-step :
      (retries : ℕ) (base : Base) (w : World W)
      → ((request net method key body (suc retries) base w).2 ≡ (ask net (call base) w).1)
        ⊎ ((r : Response) × ((ask net (call base) w).0 ≡ responded r)
            × (r.status ≡ 409)
            × ((request net method key body (suc retries) base w).2
                ≡ (request net method key body retries
                    (with_leader r.leader base)
                    (ask net (call base) w).1).2))
  unfolding request
  request-step retries base w = elim (Answer-cases (ask net (call base) w).0) [
    | inl (e, a) ↦ inl (ground (arith, a))
    | inr (r, a) ↦ elim (Bool-cases (r.status == 200)) [
      | inl s ↦ inl (ground (arith, a, s))
      | inr s ↦ elim (Bool-cases (r.status == 409)) [
        | inl t ↦ inr (r, a, (==_iff r.status 409).0 t, ground (arith, a, s, t))
        | inr t ↦ inl (ground (arith, a, s, t))
      ]
    ]
  ]

  -- The requests made since, with the port of another base as the first one.
  abbrev Onward : Base → ℕ → Base → World W → World W → Type 0
  Onward first n base w after =
      (new : List (Call × Answer)) × (after.calls ≡ w.calls ++ new)
      × Trail first method key body base new
      × (length new ≤ n)

  request-Onward :
      (first : Base) (retries : ℕ) (base : Base) (w : World W)
      → Towards first base
      → Onward first retries base w (request net method key body retries base w).2
  unfolding request
  request-Onward first zero base w t = ([], sym (append-nil w.calls), tt, omega arith)
  request-Onward first (suc retries) base w t =
      let mid = (ask net (call base) w).1 in
      let asked : Asks base method key body (call base) = (refl, refl, refl, refl, refl) in
      let entry : Call × Answer = (call base, (ask net (call base) w).0) in
      elim (request-step retries base w) [
        | inl e ↦
            subst (Onward first (suc retries) base w) (sym e)
              (entry ∷ [], refl, (asked, inl refl), omega arith)
        | inr (r, a, s, e) ↦
            let next = led_to first base r.leader in
            let (new, f, trail, len) =
              request-Onward first retries next mid (led_to-Towards first base r.leader t) in
            subst (Onward first (suc retries) base w)
              (sym (
                e
                ∙ ap (λ b. (request net method key body retries b mid).2)
                    (with_leader-led_to first base r.leader t)))
              (
                entry ∷ new,
                f ∙ append_assoc w.calls (entry ∷ []) new,
                (asked, inr (r, a, s, trail)),
                omega (arith, len),
              )
      ]

-- Get, Put and Delete of the client each end after at most three requests. All go to /kv with the
-- operation's method, key and body, the first to the base. A request is followed by another only if it is
-- answered by 409, and that goes to the host that the answer's leader names before its first colon, with
-- the port of the base, or 8081 where it has none; if the answer names no leader, to the same host again.
pub client-Since :
    {W : Type 0} (net : Network W) (key v : Bytes) (base : Base) (w : World W)
    → Since get key none 3 base w (client_get net key base w).2
      × Since put key (some v) 3 base w (client_put net key v base w).2
      × Since delete key none 3 base w (client_delete net key base w).2
unfolding client_get client_put client_delete
client-Since net key v base w = (
  request-Onward net get key none base 3 base w (refl, inl refl),
  request-Onward net put key (some v) base 3 base w (refl, inl refl),
  request-Onward net delete key none base 3 base w (refl, inl refl),
)
