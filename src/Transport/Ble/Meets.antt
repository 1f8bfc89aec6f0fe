-- ===== src/Transport/Ble/Meets.antt =====
-- The bleak transport meets the contract of a transport, whatever bleak does.
use bedjet_local.Prelude.{
  ◌≡◌, ◌⊎◌, refl, ap, inl, inr, String, Bool, false, Option, List, [], ◌∷◌, ◌++◌, arith, Bool-cases,
}
use bedjet_local.Protocol.Constants.{Bytes}
use bedjet_local.Python.Result.{Result, ok, err}
use bedjet_local.Transport.Contract.{
  IsTransport, Raised, transport_error, not_connected, IsTranslated,
}
use bedjet_local.Transport.Ble.{
  Answer, answered, raised, stranger, Moment, BleakTransport, as_transport, is_connected, resolve,
  establish, after, connect, disconnect, still_connected, read, write_type, send, write, subscribe,
  IsDocumented, IsOrderly, ble_transport, handed_over, Outcome,
}

handed_over-snoc :
    (rs : List (String × Bytes × Bool)) (uuid : String) (payload : Bytes) (response : Bool)
    → handed_over (rs ++ (uuid, payload, response) ∷ []) ≡ handed_over rs ++ (uuid, payload) ∷ []
handed_over-snoc [] uuid payload response = refl
handed_over-snoc (r ∷ rs) uuid payload response =
    ap (λ ws. (r.0, r.1) ∷ ws) (handed_over-snoc rs uuid payload response)

as_transport-IsTranslated :
    {A : Type 0} (a : Answer A) → IsDocumented a → IsTranslated (as_transport a)
unfolding as_transport
as_transport-IsTranslated (answered a) h = tt
as_transport-IsTranslated (raised e) h = tt
as_transport-IsTranslated stranger h = h

-- What a write leaves in the list of writes.
abbrev HandsAtMost : String → Bytes → BleakTransport → Outcome (Unit {0}) → Type 0
HandsAtMost uuid payload t x =
    ((handed_over x.1.requests ≡ handed_over t.requests) × ((e : Unit {0}) → x.0 ≡ ok e → ⊥))
    ⊎ (handed_over x.1.requests ≡ handed_over t.requests ++ (uuid, payload) ∷ [])

module _ (lower : String → String) (m : Moment) (uuid : String) (payload : Bytes)
    (t : BleakTransport) where
  send-HandsAtMost :
      (response : Bool) → HandsAtMost uuid payload t (send lower m uuid payload t response)
  unfolding send
  send-HandsAtMost response = elim (Bool-cases (still_connected m t)) [
    | inl up ↦ rw up (inr (handed_over-snoc t.requests uuid payload response))
    | inr down ↦ rw down (inl (refl, λ e h. cc))
  ]

  after-HandsAtMost :
      (x : Result Raised Bool)
      → HandsAtMost uuid payload t (after x t (send lower m uuid payload t))
  after-HandsAtMost (ok response) = send-HandsAtMost response
  after-HandsAtMost (err e) = inl (refl, λ u h. cc)

module _ (lower : String → String) where
  write-HandsAtMost :
      (m : Moment) (uuid : String) (payload : Bytes) (response : Option Bool) (t : BleakTransport)
      → HandsAtMost uuid payload t (write lower m uuid payload response t)
  unfolding write
  write-HandsAtMost m uuid payload response t =
      after-HandsAtMost lower m uuid payload t (write_type lower m uuid response t)

  written_of :
      (uuid : String) (payload : Bytes) (t : BleakTransport) (x : Outcome (Unit {0}))
      → HandsAtMost uuid payload t x
      → x.0 ≡ ok tt
      → handed_over x.1.requests ≡ handed_over t.requests ++ (uuid, payload) ∷ []
  written_of uuid payload t x h returned = elim h [
    | inl kept ↦ absurd (kept.1 tt returned)
    | inr more ↦ more
  ]

  at_most_of :
      (uuid : String) (payload : Bytes) (t : BleakTransport) (x : Outcome (Unit {0}))
      → HandsAtMost uuid payload t x
      → (handed_over x.1.requests ≡ handed_over t.requests)
        ⊎ (handed_over x.1.requests ≡ handed_over t.requests ++ (uuid, payload) ∷ [])
  at_most_of uuid payload t x h = elim h [ inl kept ↦ inl kept.0 | inr more ↦ inr more ]

  module _ (m : Moment) (uuid : String) (t : BleakTransport) where
    down_no_write :
        (payload : Bytes) (response : Option Bool)
        → is_connected m t ≡ false
        → ((write lower m uuid payload response t).0 ≡ err (transport_error not_connected))
          × (handed_over (write lower m uuid payload response t).1.requests
              ≡ handed_over t.requests)
    unfolding write write_type send is_connected still_connected
    down_no_write payload response h = ground arith

    down_no_read :
        is_connected m t ≡ false → (read m uuid t).0 ≡ err (transport_error not_connected)
    unfolding read is_connected still_connected
    down_no_read h = ground arith

    failed_connect_keeps :
        (m' : Moment) (e : Raised)
        → (connect m uuid t).0 ≡ err e
        → is_connected m' (connect m uuid t).1 ≡ is_connected m' t
    unfolding connect resolve establish is_connected
    failed_connect_keeps m' e h = ground arith

    connect-IsTranslated : IsOrderly m → IsTranslated (connect m uuid t).0
    unfolding connect resolve establish
    connect-IsTranslated o = ground (arith, o.found, o.established)

    disconnect-IsTranslated : IsOrderly m → IsTranslated (disconnect m t).0
    unfolding disconnect as_transport
    disconnect-IsTranslated o = ground (arith, o.closed)

    read-IsTranslated : IsOrderly m → IsTranslated (read m uuid t).0
    unfolding read as_transport
    read-IsTranslated o = ground (arith, o.value)

    subscribe-IsTranslated : IsOrderly m → IsTranslated (subscribe m uuid t).0
    unfolding subscribe as_transport
    subscribe-IsTranslated o = ground (arith, o.accepted)

    write-IsTranslated :
        (payload : Bytes) (response : Option Bool)
        → IsOrderly m
        → IsTranslated (write lower m uuid payload response t).0
    unfolding write write_type send as_transport
    write-IsTranslated payload response o = ground (arith, o.layout, o.accepted)

  released_link : (m m' : Moment) (t : BleakTransport) → is_connected m' (disconnect m t).1 ≡ false
  unfolding is_connected disconnect
  released_link m m' t = ground arith

  quiet_read :
      (m : Moment) (uuid : String) (t : BleakTransport)
      → handed_over (read m uuid t).1.requests ≡ handed_over t.requests
  unfolding read
  quiet_read m uuid t = ground arith

  -- Whatever bleak and the adapter do, the transport keeps the contract: a link given up is down, a
  -- failed connection changes nothing, a write that returns was handed to bleak once and one that
  -- raises at most once, nothing goes out over a link that is down, and, as long as bleak raises
  -- only under `BleakError`, nothing but a `TransportError` is raised.
  pub ble-IsTransport : IsTransport (ble_transport lower)
  ble-IsTransport = record {
    released = released_link;
    failed_connect = λ m m' address s {e} h. failed_connect_keeps m address s m' e h;
    written = λ m uuid payload response s returned.
        written_of uuid payload s (write lower m uuid payload response s)
          (write-HandsAtMost m uuid payload response s) returned;
    written_at_most = λ m uuid payload response s.
        at_most_of uuid payload s (write lower m uuid payload response s)
          (write-HandsAtMost m uuid payload response s);
    no_link_no_write = λ m uuid payload response s h. down_no_write m uuid s payload response h;
    no_link_no_read = λ m uuid s h. down_no_read m uuid s h;
    reads_quietly = quiet_read;
    connect_translated = λ m address s o. connect-IsTranslated m address s o;
    disconnect_translated = λ m s o. disconnect-IsTranslated m "" s o;
    read_translated = λ m uuid s o. read-IsTranslated m uuid s o;
    write_translated =
        λ m uuid payload response s o. write-IsTranslated m uuid s payload response o;
    subscribe_translated = λ m uuid s o. subscribe-IsTranslated m uuid s o;
    unsubscribe_translated = λ m uuid s o. subscribe-IsTranslated m uuid s o;
  }
