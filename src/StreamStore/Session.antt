-- ===== src/StreamStore/Session.antt =====
-- A sender and a receiver with the same secret, over a link that loses frames.
use tsn_fieldbus.Base.{
  nat_eq, subst, ℕ, ◌+◌, ◌≤◌, ◌<◌, ◌≡◌, refl, sym, ◌∙◌, arith, List, [], ◌∷◌, length, All, some,
  Bool, true, false, Result, ok, err, u64_max, saturating_add, if◌then◌else◌,
}
use tsn_fieldbus.Base.Table.{get, insert, get-insert_self}
use tsn_fieldbus.Proto.{StatusCode}
use tsn_fieldbus.Security.Crypto.{Blake3, calculate_hmac}
use tsn_fieldbus.Security.Crypto.Compare.{calculate_hmac-IsBytes}
use tsn_fieldbus.L2.Header.{L2Header}
use tsn_fieldbus.StreamStore.{
  StreamEntry, StreamStore, tag_parts, generate_stream_tag, validate_stream_tag,
}
use tsn_fieldbus.StreamStore.Tags.{validate_stream_tag_known, generate_stream_tag_known}

-- What the sender puts into a frame, and whether the frame arrives.
pub record Frame : Type 0 where
  pub header : L2Header
  pub payload : List ℕ
  pub arrives : Bool

module _ (b : Blake3) where
  -- The receiver's answer to what the sender generated.
  receive :
      StreamStore → Frame → Result StatusCode (ℕ × List ℕ) → StreamStore × Result StatusCode Bool
  receive receiver m (ok (n, tag)) = validate_stream_tag b receiver m.header m.payload n tag
  receive receiver m (err e) = (receiver, err e)

  -- The answers to the frames that arrive.
  pub answers : StreamStore → StreamStore → List Frame → List (Result StatusCode Bool)
  answers sender receiver [] = []
  answers sender receiver (m ∷ ms) =
      let g = generate_stream_tag b sender m.header m.payload in
      let v = receive receiver m g.1 in
      let rest = answers g.0 (if m.arrives then v.0 else receiver) ms in
      if m.arrives then v.1 ∷ rest else rest

  -- The receiver's number of the stream is behind the sender's.
  record IsLinked (k : ℕ) (sender receiver : StreamStore) (es er : StreamEntry) : Type 0 where
    sends : get k sender.streams ≡ some es
    receives : get k receiver.streams ≡ some er
    secret : receiver.shared_secret ≡ sender.shared_secret
    behind : er.sequence_number < es.sequence_number

  abbrev next_entry : StreamEntry → StreamEntry
  next_entry e = record e { sequence_number = saturating_add u64_max e.sequence_number 1 }

  abbrev seen_entry : StreamEntry → ℕ → StreamEntry
  seen_entry e n = record e { sequence_number = n }

  IsLinked-step :
      (sender receiver : StreamStore) (es er : StreamEntry) (m : Frame)
      → IsLinked m.header.stream_id sender receiver es er
      → es.sequence_number < u64_max
      → let g = generate_stream_tag b sender m.header m.payload in
        let v = receive receiver m g.1 in
        (v.1 ≡ ok true)
        × IsLinked m.header.stream_id g.0 v.0 (next_entry es) (seen_entry er es.sequence_number)
        × IsLinked m.header.stream_id g.0 receiver (next_entry es) er
  unfolding receive
  IsLinked-step sender receiver es er m link room =
      let k : ℕ = m.header.stream_id in
      let n : ℕ = es.sequence_number in
      let tag : List ℕ = calculate_hmac b sender.shared_secret (tag_parts m.header m.payload n) in
      let (made, grown, kept, secret') =
        generate_stream_tag_known b sender m.header m.payload es link.sends in
      let (accept, refuse) =
        validate_stream_tag_known b receiver m.header m.payload n tag er link.receives
          (calculate_hmac-IsBytes b sender.shared_secret (tag_parts m.header m.payload n)).0 in
      let same : calculate_hmac b receiver.shared_secret (tag_parts m.header m.payload n) ≡ tag =
        rw (link.secret) in
      let answered : validate_stream_tag b receiver m.header m.payload n tag
          ≡ (record receiver { streams = insert k (seen_entry er n) receiver.streams }, ok true) =
        accept link.behind same in
      let seen : get k (insert k (seen_entry er n) receiver.streams) ≡ some (seen_entry er n) =
        get-insert_self k (seen_entry er n) receiver.streams in
      rw made (
        rw answered (
          refl,
          record {
            sends = grown;
            receives = seen;
            secret = link.secret ∙ sym secret';
            behind = omega arith;
          },
          record {
            sends = grown;
            receives = link.receives;
            secret = link.secret ∙ sym secret';
            behind = omega (arith, link.behind);
          },
        ))

  -- The two cases of `answers`, on the test alone.
  All-if :
      (c : Bool) (answer : Result StatusCode Bool)
      (after_both after_sent : List (Result StatusCode Bool))
      → answer ≡ ok true
      → All (λ r. r ≡ ok true) after_both
      → All (λ r. r ≡ ok true) after_sent
      → All (λ r. r ≡ ok true) (if c then answer ∷ after_both else after_sent)
  All-if true answer both sent good h1 h2 = (good, h1)
  All-if false answer both sent good h1 h2 = h2

  answers-cons :
      (c : Bool) (sender receiver next : StreamStore) (answer : Result StatusCode Bool)
      (ms : List Frame)
      → let rest = answers sender (if c then next else receiver) ms in
        (if c then answer ∷ rest else rest)
        ≡ (if c then answer ∷ answers sender next ms else answers sender receiver ms)
  answers-cons true sender receiver next answer ms = refl
  answers-cons false sender receiver next answer ms = refl

  answers-All :
      (k : ℕ) (sender receiver : StreamStore) (es er : StreamEntry) (ms : List Frame)
      → IsLinked k sender receiver es er
      → All (λ m. m.header.stream_id ≡ k) ms
      → es.sequence_number + length ms ≤ u64_max
      → All (λ r. r ≡ ok true) (answers sender receiver ms)
  unfolding answers
  answers-All k sender receiver es er [] link on_k room = tt
  answers-All k sender receiver es er (m ∷ ms) link (here, on_k) room =
      let at : IsLinked m.header.stream_id sender receiver es er =
        subst (λ j. IsLinked j sender receiver es er) (sym here) link in
      let (good, both, skipped) = IsLinked-step sender receiver es er m at (omega arith) in
      let g : StreamStore × Result StatusCode (ℕ × List ℕ) =
        generate_stream_tag b sender m.header m.payload in
      let v : StreamStore × Result StatusCode Bool = receive receiver m g.1 in
      let n : ℕ = es.sequence_number in
      let after_both : All (λ r. r ≡ ok true) (answers g.0 v.0 ms) =
        answers-All k g.0 v.0 (next_entry es) (seen_entry er n) ms
          (subst (λ j. IsLinked j g.0 v.0 (next_entry es) (seen_entry er n)) here both) on_k
          (omega arith) in
      let after_sent : All (λ r. r ≡ ok true) (answers g.0 receiver ms) =
        answers-All k g.0 receiver (next_entry es) er ms
          (subst (λ j. IsLinked j g.0 receiver (next_entry es) er) here skipped) on_k
          (omega arith) in
      subst (All (λ r. r ≡ ok true)) (sym (answers-cons m.arrives g.0 receiver v.0 v.1 ms)) (
        All-if m.arrives v.1 (answers g.0 v.0 ms) (answers g.0 receiver ms) good after_both
          after_sent)

  -- Every frame that arrives is accepted, whichever frames of the stream are lost, as long as the
  -- receiver knows the secret, is behind the sender at the start, and the sender's number has room.
  pub answers-accepted :
      (k : ℕ) (sender receiver : StreamStore) (es er : StreamEntry) (ms : List Frame)
      → get k sender.streams ≡ some es
      → get k receiver.streams ≡ some er
      → receiver.shared_secret ≡ sender.shared_secret
      → er.sequence_number < es.sequence_number
      → All (λ m. m.header.stream_id ≡ k) ms
      → es.sequence_number + length ms ≤ u64_max
      → All (λ r. r ≡ ok true) (answers sender receiver ms)
  answers-accepted k sender receiver es er ms sends receives secret behind =
      answers-All k sender receiver es er ms
        (record { sends = sends; receives = receives; secret = secret; behind = behind })
