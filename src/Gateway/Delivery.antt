-- ===== src/Gateway/Delivery.antt =====
-- cmd/gateway/main.go: what reaches the client, and what is left when the socket closes.
use taxi_app.Base.{
  String, true, false, List, [], ◌∷◌, ◌++◌, append-nil, append_assoc, ◌≡◌, refl, sym, ◌∙◌, ap,
  subst, ◌⊎◌, inl, inr, Bool-cases,
}
use taxi_app.Gateway.{
  Frame, text, ping, Socket, opened, returned, Own, done, forward, drop, drained, tick, tick_fails,
  read, read_fails, reader_returned, writes, Around, deliver, close_channel, request_ends,
  client_leaves, Reach, start, own, around, Runs, here, next,
}

-- The payloads among the frames.
pub payloads : List Frame → List String
payloads [] = []
payloads (text m ∷ fs) = m ∷ payloads fs
payloads (ping ∷ fs) = payloads fs

payloads-append : (fs gs : List Frame) → payloads (fs ++ gs) ≡ payloads fs ++ payloads gs
unfolding payloads
payloads-append [] gs = refl
payloads-append (text m ∷ fs) gs = ap (λ l. m ∷ l) (payloads-append fs gs)
payloads-append (ping ∷ fs) gs = payloads-append fs gs

-- While the loop runs all is open, and what was given is what was sent and what is waiting. A reader
-- that has stopped has cancelled.
record Inv (s : Socket) : Type 0 where
  open_or_not : (s.connected ≡ s.running) × (s.subscribed ≡ s.running) × (s.ticking ≡ s.running)
  ended : (s.running ≡ false) ⊎ (s.reading ≡ false) → s.cancelled ≡ true
  in_order : (lost : List String) × (s.given ≡ payloads s.sent ++ (lost ++ s.inbox))
  none_lost : s.running ≡ true → s.given ≡ payloads s.sent ++ s.inbox

returned-Inv :
    (s : Socket)
    → (lost : List String) × (s.given ≡ payloads s.sent ++ (lost ++ s.inbox))
    → Inv (returned s)
returned-Inv s order = record {
  open_or_not = (refl, refl, refl);
  ended = λ h. refl;
  in_order = order;
  none_lost = λ h. absurd (cc h);
}

Inv-opened : (user : String) → Inv (opened user)
unfolding opened payloads
Inv-opened user = record {
  open_or_not = (refl, refl, refl);
  ended = λ h. elim h [ inl h ↦ absurd (cc h) | inr h ↦ absurd (cc h) ];
  in_order = ([], refl);
  none_lost = λ h. refl;
}

sent_one :
    (fs : List Frame) (m : String) (rest given : List String)
    → given ≡ payloads fs ++ (m ∷ rest)
    → given ≡ payloads (fs ++ (text m ∷ [])) ++ rest
unfolding payloads
sent_one fs m rest given h =
    h
    ∙ sym (append_assoc (payloads fs) (m ∷ []) rest)
    ∙ ap (λ l. l ++ rest) (sym (payloads-append fs (text m ∷ [])))

payloads-ping : (fs : List Frame) → payloads (fs ++ (ping ∷ [])) ≡ payloads fs
unfolding payloads
payloads-ping fs = payloads-append fs (ping ∷ []) ∙ append-nil (payloads fs)

Own-Inv : {s t : Socket} → Own s t → Inv s → Inv t
Own-Inv {s} (done r c e) inv = subst Inv (sym e) (returned-Inv s inv.in_order)
Own-Inv {s} (forward m rest r q e) inv =
    let now = sent_one s.sent m rest s.given (inv.none_lost r ∙ ap (λ l. payloads s.sent ++ l) q) in
    subst Inv (sym e) (record {
      open_or_not = inv.open_or_not;
      ended = inv.ended;
      in_order = ([], now);
      none_lost = λ h. now;
    })
Own-Inv {s} (drop m rest r q e) inv = subst Inv (sym e) (
    returned-Inv (record s { inbox = rest })
      (m ∷ [], inv.none_lost r ∙ ap (λ l. payloads s.sent ++ l) q))
Own-Inv {s} (drained r c q e) inv = subst Inv (sym e) (returned-Inv s inv.in_order)
Own-Inv {s} (tick r e) inv = subst Inv (sym e) (record {
  open_or_not = inv.open_or_not;
  ended = inv.ended;
  in_order = (
    inv.in_order.0,
    inv.in_order.1 ∙ ap (λ l. l ++ (inv.in_order.0 ++ s.inbox)) (sym (payloads-ping s.sent)),
  );
  none_lost = λ h. inv.none_lost h ∙ ap (λ l. l ++ s.inbox) (sym (payloads-ping s.sent));
})
Own-Inv {s} (tick_fails r e) inv = subst Inv (sym e) (returned-Inv s inv.in_order)
Own-Inv (read r c e) inv = subst Inv (sym e) inv
Own-Inv (read_fails r c e) inv = subst Inv (sym e) (record {
  open_or_not = inv.open_or_not;
  ended = λ h. refl;
  in_order = inv.in_order;
  none_lost = inv.none_lost;
})

Around-Inv : {s t : Socket} → Around s t → Inv s → Inv t
Around-Inv {s} (deliver name m open_ live same e) inv =
    let longer = λ (l : List String). append_assoc l s.inbox (m ∷ []) in
    let running : s.running ≡ true = sym inv.open_or_not.1 ∙ open_ in
    let now : s.given ++ (m ∷ []) ≡ payloads s.sent ++ (s.inbox ++ (m ∷ [])) =
      ap (λ l. l ++ (m ∷ [])) (inv.none_lost running) ∙ longer (payloads s.sent) in
    subst Inv (sym e) (record {
      open_or_not = inv.open_or_not;
      ended = inv.ended;
      in_order = ([], now);
      none_lost = λ h. now;
    })
Around-Inv (close_channel e) inv = subst Inv (sym e) (record {
  open_or_not = inv.open_or_not;
  ended = inv.ended;
  in_order = inv.in_order;
  none_lost = inv.none_lost;
})
Around-Inv (client_leaves e) inv = subst Inv (sym e) (record {
  open_or_not = inv.open_or_not;
  ended = inv.ended;
  in_order = inv.in_order;
  none_lost = inv.none_lost;
})
Around-Inv (request_ends e) inv = subst Inv (sym e) (record {
  open_or_not = inv.open_or_not;
  ended = λ h. refl;
  in_order = inv.in_order;
  none_lost = inv.none_lost;
})

Reach-Inv : {user : String} {s : Socket} → Reach user s → Inv s
Reach-Inv {user} start = Inv-opened user
Reach-Inv (own r st) = Own-Inv st (Reach-Inv r)
Reach-Inv (around r st) = Around-Inv st (Reach-Inv r)

-- In every state of a socket, the text frames that were sent are the first messages that the user's
-- channel gave, each once and in their order, and while the socket is served those not yet sent are
-- all still waiting.
pub sent_in_order :
    {user : String} {s : Socket}
    → Reach user s
    → ((rest : List String) × (s.given ≡ payloads s.sent ++ rest))
      × ((s.running ≡ false) ⊎ (s.given ≡ payloads s.sent ++ s.inbox))
sent_in_order {s = s} r =
    let inv = Reach-Inv r in
    (
      (inv.in_order.0 ++ s.inbox, inv.in_order.1),
      elim (Bool-cases s.running) [ inl on ↦ inr (inv.none_lost on) | inr off ↦ inl off ],
    )

-- Nothing of the socket is left: neither goroutine runs, and all that was opened is closed.
pub record IsReleased (s : Socket) : Type 0 where
  pub loop_ended : s.running ≡ false
  pub reader_ended : s.reading ≡ false
  pub closed : s.connected ≡ false
  pub unsubscribed : s.subscribed ≡ false
  pub stopped : s.ticking ≡ false

-- The socket can be ended without a write.
Ends : Socket → Type 0
Ends s = (t : Socket) × Runs s t × IsReleased t × (t.sent ≡ s.sent)

-- Once the loop has returned, the reader's next read ends it.
reader_ends : {s : Socket} → Inv s → s.running ≡ false → Ends s
unfolding Ends writes
reader_ends {s} inv off =
    let c = inv.open_or_not.0 ∙ off in
    let u = inv.open_or_not.1 ∙ off in
    let k = inv.open_or_not.2 ∙ off in
    elim (Bool-cases s.reading) [
      | inl reads ↦ (
        reader_returned s,
        next here (read_fails reads (inr c) refl) refl,
        record { loop_ended = off; reader_ended = refl; closed = c; unsubscribed = u; stopped = k },
        refl,
      )
      | inr ended ↦ (
        s,
        here,
        record {
          loop_ended = off;
          reader_ended = ended;
          closed = c;
          unsubscribed = u;
          stopped = k;
        },
        refl,
      )
    ]

Runs-trans : {s t u : Socket} → Runs s t → Runs t u → Runs s u
Runs-trans r here = r
Runs-trans r (next q st w) = next (Runs-trans r q) st w

-- A step without a write, and then the end.
first : {s t : Socket} (st : Own s t) → writes st ≡ false → t.sent ≡ s.sent → Ends t → Ends s
unfolding Ends
first st w same (u, run, released, kept) =
    (u, Runs-trans (next here st w) run, released, kept ∙ same)

-- Once the context has ended, so does the loop.
cancelled_ends : {s : Socket} → Inv s → s.cancelled ≡ true → Ends s
unfolding writes
cancelled_ends {s} inv over = elim (Bool-cases s.running) [
  | inl on ↦
      first {t = returned s} (done on over refl) refl refl
        (reader_ends (returned-Inv s inv.in_order) refl)
  | inr off ↦ reader_ends inv off
]

-- Once the client is gone or the context has ended, the process can end the socket by its own steps,
-- without another write to it, not even one that fails: both goroutines, the subscription, the ticker
-- and the connection.
pub winds_down :
    {user : String} {s : Socket}
    → Reach user s
    → (s.client_gone ≡ true) ⊎ (s.cancelled ≡ true)
    → (t : Socket) × Runs s t × IsReleased t × (t.sent ≡ s.sent)
unfolding Ends writes
winds_down r (inr over) = cancelled_ends (Reach-Inv r) over
winds_down {s = s} r (inl gone) = elim (Bool-cases s.reading) [
  | inl reads ↦
      let st : Own s (reader_returned s) = read_fails reads (inl gone) refl in
      first st refl refl (cancelled_ends (Own-Inv st (Reach-Inv r)) refl)
  | inr stopped ↦ cancelled_ends (Reach-Inv r) ((Reach-Inv r).ended (inr stopped))
]
