-- ===== src/Netlog/Rounds.antt =====
-- The rounds of the listener of netlog.c.
use cs360v_cs380_projects.Prelude.{
  ℕ, ◌+◌, ◌<◌, ◌≤◌, ◌≡◌, refl, ◌∙◌, ap, ltb, ◌==◌, if◌then◌else◌, suc, List, [], ◌∷◌, ◌++◌, true,
  false, Bool-cases, inl, inr, All, All-append, Option, none, some, length, length-append,
  length-drop, drop, arith,
}
use cs360v_cs380_projects.Netlog.{
  Netlog, Conn, Flags, Listener, poll, accept, serve, service, round, max_conn,
}
use cs360v_cs380_projects.Netlog.Lines.{HasRoom, feed-HasRoom}

-- The descriptors of connections, and how often one stands in a list.
unfoldable pub fds : List Conn → List ℕ
fds [] = []
fds (c ∷ cs) = c.fd ∷ fds cs

unfoldable pub occurs : ℕ → List ℕ → ℕ
occurs k [] = 0
occurs k (fd ∷ rest) = let more = occurs k rest in if k == fd then suc more else more

occurs-append : (k : ℕ) (xs ys : List ℕ) → occurs k (xs ++ ys) ≡ occurs k xs + occurs k ys
unfolding occurs
occurs-append k [] ys = omega arith
occurs-append k (x ∷ xs) ys = ground (arith, occurs-append k xs ys)

fds-append : (cs ds : List Conn) → fds (cs ++ ds) ≡ fds cs ++ fds ds
unfolding fds
fds-append [] ds = refl
fds-append (c ∷ cs) ds = ap (λ l. c.fd ∷ l) (fds-append cs ds)

abbrev pub ConnRoom : Conn → Type 0
ConnRoom c = HasRoom c.buf

-- At most 64 connections, 64 slots, and room in every line buffer.
pub record IsListener (l : Listener) : Type 0 where
  pub count : length l.conns ≤ max_conn
  pub slots : length l.revents ≡ max_conn
  pub room : All ConnRoom l.conns

serve-HasRoom :
    (nl : Netlog) (c : Conn) (f : Flags) (input : List ℕ)
    → ConnRoom c
    → HasRoom (serve nl c f input).1
unfolding serve
serve-HasRoom nl c f [] h = ground arith
serve-HasRoom nl c f (ch ∷ bytes) h = ground (arith, feed-HasRoom (ch ∷ bytes) nl c.buf h)

module _ (reads : ℕ → List ℕ) where
  service-ConnRoom :
      (cs : List Conn) (fs : List Flags) (nl : Netlog)
      → All ConnRoom cs
      → All ConnRoom (service reads nl cs fs).1
  unfolding service
  service-ConnRoom [] fs nl h = tt
  service-ConnRoom (c ∷ cs) [] nl h = h
  service-ConnRoom (c ∷ cs) (f ∷ fs) nl h = ground (
    arith,
    serve-HasRoom nl c f (reads c.fd) h.0,
    service-ConnRoom cs fs (serve nl c f (reads c.fd)).0 h.1,
  )

  -- Every connection is kept or closed, under its own descriptor.
  occurs-service :
      (k : ℕ) (cs : List Conn) (fs : List Flags) (nl : Netlog)
      → occurs k (fds (service reads nl cs fs).1) + occurs k (service reads nl cs fs).2
        ≡ occurs k (fds cs)
  unfolding service fds occurs
  occurs-service k [] fs nl = omega arith
  occurs-service k (c ∷ cs) [] nl = omega arith
  occurs-service k (c ∷ cs) (f ∷ fs) nl =
      ground (arith, occurs-service k cs fs (serve nl c f (reads c.fd)).0)

  length-service :
      (cs : List Conn) (fs : List Flags) (nl : Netlog)
      → length (service reads nl cs fs).1 ≤ length cs
  unfolding service
  length-service [] fs nl = omega arith
  length-service (c ∷ cs) [] nl = omega arith
  length-service (c ∷ cs) (f ∷ fs) nl =
      ground (arith, length-service cs fs (serve nl c f (reads c.fd)).0)

-- The producers that a round brings.
abbrev pub arrivals : Option ℕ → List ℕ
arrivals none = []
arrivals (some fd) = fd ∷ []

module _ (polled : List Flags) (l : Listener) (fits : length polled ≡ length l.conns)
    (v : IsListener l) where
  polled-IsListener : IsListener (poll polled l)
  unfolding poll
  polled-IsListener = record {
    count = v.count;
    slots = omega (
      arith,
      v.slots,
      v.count,
      length-append polled (drop (length l.conns) l.revents),
      length-drop (length l.conns) l.revents,
    );
    room = v.room;
  }

accept-IsListener :
    (newcomer : Option ℕ) (l : Listener) → IsListener l → IsListener (accept newcomer l)
unfolding accept
accept-IsListener none l v = v
accept-IsListener (some fd) l v =
    let c : Conn = record { fd = fd; buf = [] } in
    elim (Bool-cases (ltb (length l.conns) max_conn)) [
      | inl e ↦ rw e (record {
        count = ground (arith, length-append l.conns (c ∷ []));
        slots = v.slots;
        room = All-append ConnRoom l.conns (c ∷ []) v.room (omega arith, tt);
      })
      | inr e ↦ rw e (record { count = v.count; slots = v.slots; room = v.room })
    ]

occurs-accept :
    (k : ℕ) (newcomer : Option ℕ) (l : Listener)
    → occurs k (fds (accept newcomer l).conns) + occurs k (accept newcomer l).closed
      ≡ occurs k (fds l.conns) + occurs k l.closed + occurs k (arrivals newcomer)
unfolding accept occurs fds
occurs-accept k none l = omega arith
occurs-accept k (some fd) l =
    let c : Conn = record { fd = fd; buf = [] } in
    let all : occurs k (fds (l.conns ++ c ∷ [])) ≡ occurs k (fds l.conns) + occurs k (fd ∷ []) =
      ap (occurs k) (fds-append l.conns (c ∷ [])) ∙ occurs-append k (fds l.conns) (fd ∷ []) in
    elim (Bool-cases (ltb (length l.conns) max_conn)) [
      | inl e ↦ rw e (ground (arith, all))
      | inr e ↦ rw e (ground arith)
    ]

-- A round keeps the listener's invariant: at most 64 connections, and room for a NUL in every line
-- buffer. No descriptor is lost, closed twice or closed for another: each descriptor stands among
-- the open connections and the closed ones after the round as often as it stood there before it
-- or as the newcomer.
pub round-IsListener :
    (polled : List Flags) (newcomer : Option ℕ) (reads : ℕ → List ℕ) (l : Listener)
    → length polled ≡ length l.conns
    → IsListener l
    → let l' = round polled newcomer reads l in
      IsListener l'
      × ((k : ℕ)
          → occurs k (fds l'.conns) + occurs k l'.closed
            ≡ occurs k (fds l.conns) + occurs k l.closed + occurs k (arrivals newcomer))
unfolding round
round-IsListener polled newcomer reads l fits v =
    let l1 : Listener = accept newcomer (poll polled l) in
    let v1 : IsListener l1 =
      accept-IsListener newcomer (poll polled l) (polled-IsListener polled l fits v) in
    (
      record {
        count = omega (arith, length-service reads l1.conns l1.revents l1.log, v1.count);
        slots = v1.slots;
        room = service-ConnRoom reads l1.conns l1.revents l1.log v1.room;
      },
      λ k. omega (
        arith,
        occurs-service reads k l1.conns l1.revents l1.log,
        occurs-append k (service reads l1.log l1.conns l1.revents).2 l1.closed,
        occurs-accept k newcomer (poll polled l),
        kept k,
      ),
    )
  where
    kept :
        (k : ℕ)
        → occurs k (fds (poll polled l).conns) + occurs k (poll polled l).closed
          ≡ occurs k (fds l.conns) + occurs k l.closed
    kept k = unfold poll in refl

abbrev fresh : ℕ → Conn
fresh fd = record { fd = fd; buf = [] }

-- A newcomer behind the connections that `poll` reported on, in a slot that it did not fill.
module _ (reads : ℕ → List ℕ) (fd : ℕ) (f : Flags) (rest : List Flags) (silent : f.pollin ≡ false)
    (stale : f.hangup ≡ true) where
  service_stale :
      (cs : List Conn) (polled : List Flags) (nl : Netlog)
      → length polled ≡ length cs
      → let (end, kept, closed) = service reads nl cs (polled ++ f ∷ rest) in
        service reads nl (cs ++ fresh fd ∷ []) (polled ++ f ∷ rest) ≡ (end, kept, closed ++ fd ∷ [])
  unfolding service
  service_stale [] [] nl e = unfold serve in rw (silent, stale) refl
  service_stale [] (g ∷ gs) nl e = absurd (omega arith)
  service_stale (c ∷ cs) [] nl e = absurd (omega arith)
  service_stale (c ∷ cs) (g ∷ gs) nl e =
      let p = service_stale cs gs (serve nl c g (reads c.fd)).0 (omega arith) in
      elim (Bool-cases (serve nl c g (reads c.fd)).2) [
        | inl dropped ↦ rw (dropped, p) refl
        | inr kept ↦ rw (kept, p) refl
      ]

-- A newcomer's own slot is not filled by the `poll` of the round that accepts it. Where an earlier
-- round left a hangup in that slot, the newcomer is closed at once, and no byte of it is taken:
-- whatever it has to read, the log, the other connections and the slots are those of the round
-- without a newcomer, and the newcomer's descriptor is the last one that the round closes.
pub round-stale :
    (polled rest : List Flags) (fd : ℕ) (f : Flags) (reads : ℕ → List ℕ) (l : Listener)
    → length polled ≡ length l.conns
    → length l.conns < max_conn
    → drop (length l.conns) l.revents ≡ f ∷ rest
    → f.pollin ≡ false
    → f.hangup ≡ true
    → let without = round polled none reads l in
      (before : List ℕ) × (without.closed ≡ before ++ l.closed)
      × (round polled (some fd) reads l
          ≡ record without { closed = (before ++ fd ∷ []) ++ l.closed })
unfolding round poll accept
round-stale polled rest fd f reads l fits free slot silent stale =
    let room : ltb (length l.conns) max_conn ≡ true = ground arith in
    let p = service_stale reads fd f rest silent stale l.conns polled l.log fits in
    (
      (service reads l.log l.conns (polled ++ drop (length l.conns) l.revents)).2,
      refl,
      rw (room, slot) (rw p refl),
    )
