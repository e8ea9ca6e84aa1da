-- ===== src/Expose/Bookkeeping.antt =====
-- The three maps of the session (internal/expose/session.go): which keys its streams have, and how
-- many streams each key has.
use mutiauk.Base.{
  ℕ, ◌+◌, ◌-◌, ◌≤◌, ◌<◌, ◌≡◌, refl, ap, true, Option, none, some, List, [], ◌∷◌, if◌then◌else◌,
  is_some, does, Text, Bytes, text_discrete, ℕ_discrete, arith, if_cases,
}
use mutiauk.Base.Conn.{Conn, Result, ok, err}
use mutiauk.Base.GoMap.{
  find, put, delete, Unique, find-put, find-delete, put-Unique, delete-Unique, delete_absent,
}
use mutiauk.Expose.Frame.{FrameError, encode_frame, TransportError, write_message}
use mutiauk.Expose.Dispatch.{register}
use mutiauk.Expose.Session.{
  SessionError, Session, sent, write_encoded, write_control, count_of, key_count, stream_at,
  drop_count, drop_key, remove_stream,
}

-- A write changes nothing of a session but its connection.
sent_keeps {ℓ} :
    (P : Session → Type ℓ) (s : Session) (r : Result TransportError (Unit {0}) × Conn)
    → ((w : Conn) → P (record s { wire = w }))
    → P (sent s r).1
unfolding sent
sent_keeps P s (ok u, w) h = h w
sent_keeps P s (err e, w) h = h w

write_encoded_keeps {ℓ} :
    (P : Session → Type ℓ) (s : Session) (r : Result FrameError Bytes)
    → ((w : Conn) → P (record s { wire = w }))
    → P (write_encoded r s).1
unfolding write_encoded
write_encoded_keeps P s (err e) h = h s.wire
write_encoded_keeps P s (ok frame) h =
    if_cases {A = Option SessionError × Session} (λ r. P r.1) s.write_closed (λ _. h s.wire)
      (λ _. sent_keeps P s (write_message frame s.wire) h)

pub write_control_keeps {ℓ} :
    (P : Session → Type ℓ) (typ id : ℕ) (payload : Bytes) (s : Session)
    → ((w : Conn) → P (record s { wire = w }))
    → P (write_control typ id payload s).1
unfolding write_control
write_control_keeps P typ id payload s h = write_encoded_keeps P s (encode_frame typ id payload) h

-- How many streams have the key.
unfoldable pub tally : Text → List (ℕ × Text) → ℕ
tally k [] = 0
tally k ((id, j) ∷ m) = (if does (text_discrete j k) then 1 else 0) + tally k m

pub record Balanced (s : Session) : Type 0 where
  pub streams_unique : Unique ℕ_discrete s.streams
  pub keys_unique : Unique ℕ_discrete s.key_by_id
  pub same_ids : (id : ℕ) → is_some (stream_at id s) ≡ is_some (find ℕ_discrete id s.key_by_id)
  pub counted : (k : Text) → key_count k s ≡ tally k s.key_by_id
  pub capped : (k : Text) → key_count k s ≤ s.max_streams_per_key

tally-put_new :
    (k j : Text) (id : ℕ) (m : List (ℕ × Text))
    → find ℕ_discrete id m ≡ none
    → tally k (put ℕ_discrete id j m) ≡ (if does (text_discrete j k) then 1 else 0) + tally k m
unfolding tally put find
tally-put_new k j id [] h = refl
tally-put_new k j id ((i, l) ∷ m) h = ground (arith, tally-put_new k j id m)

tally-delete :
    (k j : Text) (id : ℕ) (m : List (ℕ × Text))
    → Unique ℕ_discrete m
    → find ℕ_discrete id m ≡ some j
    → tally k (delete ℕ_discrete id m) + (if does (text_discrete j k) then 1 else 0) ≡ tally k m
unfolding tally delete find
tally-delete k j id [] u h = cc
tally-delete k j id ((i, l) ∷ m) u h =
    ground (arith, tally-delete k j id m, delete_absent ℕ_discrete id m)

count-drop_count :
    (j k : Text) (m : List (Text × ℕ))
    → count_of (find text_discrete j (drop_count k m))
      ≡ count_of (find text_discrete j m) - (if does (text_discrete k j) then 1 else 0)
unfolding drop_count
count-drop_count j k m = ground (
  arith,
  find-put text_discrete j k (n - 1) m,
  find-put text_discrete k k (n - 1) m,
  find-delete text_discrete j k (put text_discrete k (n - 1) m),
  find-delete text_discrete j k m,
)
  where
    n : ℕ
    n = count_of (find text_discrete k m)

-- Dropping a stream keeps the maps balanced.
pub remove_stream-Balanced : (id : ℕ) (s : Session) → Balanced s → Balanced (remove_stream id s)
unfolding remove_stream drop_key
remove_stream-Balanced id s b =
    if_cases Balanced (is_some (stream_at id s))
      (λ here. dropped (find ℕ_discrete id s.key_by_id) refl here) (λ _. b)
  where
    dropped :
        (o : Option Text)
        → find ℕ_discrete id s.key_by_id ≡ o
        → is_some (stream_at id s) ≡ true
        → Balanced (drop_key id o (record s { streams = delete ℕ_discrete id s.streams }))
    dropped none e here = cc (b.same_ids id, here, ap is_some e)
    dropped (some k) e here = record {
      streams_unique = delete-Unique ℕ_discrete id s.streams b.streams_unique;
      keys_unique = delete-Unique ℕ_discrete id s.key_by_id b.keys_unique;
      same_ids = λ i. ground (
        arith,
        find-delete ℕ_discrete i id s.streams,
        find-delete ℕ_discrete i id s.key_by_id,
        b.same_ids i,
      );
      counted = λ j. omega (
        arith,
        count-drop_count j k s.key_counts,
        b.counted j,
        tally-delete j k id s.key_by_id b.keys_unique e,
      );
      capped = λ j. omega (arith, count-drop_count j k s.key_counts, b.capped j);
    }

-- So does the registration of a stream under a new id and a key below its limit.
pub register-Balanced :
    (id : ℕ) (k : Text) (s : Session)
    → stream_at id s ≡ none
    → key_count k s < s.max_streams_per_key
    → Balanced s
    → Balanced (register id k s)
unfolding register
register-Balanced id k s free room b = record {
  streams_unique = put-Unique ℕ_discrete id s.next_ref s.streams b.streams_unique;
  keys_unique = put-Unique ℕ_discrete id k s.key_by_id b.keys_unique;
  same_ids = λ i. ground (
    arith,
    find-put ℕ_discrete i id s.next_ref s.streams,
    find-put ℕ_discrete i id k s.key_by_id,
    b.same_ids i,
  );
  counted = λ j. ground (
    arith,
    find-put text_discrete j k (key_count k s + 1) s.key_counts,
    b.counted j,
    b.counted k,
    tally-put_new j k id s.key_by_id no_key,
  );
  capped =
      λ j. ground (arith, find-put text_discrete j k (key_count k s + 1) s.key_counts, b.capped j);
}
  where
    no_key : find ℕ_discrete id s.key_by_id ≡ none
    no_key = ground (arith, b.same_ids id)
