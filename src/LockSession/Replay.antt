-- ===== src/LockSession/Replay.antt =====
-- components/switchbot_keypad_bridge/lock_session.cpp: the replay ring against the list of the last
-- eight recorded ciphertexts, newest first.
use switchbot_keypad_bridge.Common.{
  ℕ, zero, suc, ◌+◌, ◌%◌, ◌≤◌, ◌<◌, ◌≡◌, refl, sym, ap, ap₂, ◌∙◌, Bool, true, false, ◌&&◌, ◌||◌,
  List, [], ◌∷◌, arith, ◌==◌, length, set, take, drop, replicate, All, take-append_self, Bytes,
  memcmp_eq, bytes_eq,
}
use switchbot_keypad_bridge.LockSession.{
  ReplayEntry, LockSession, clear_replay_history, is_replayed_ciphertext, record_ciphertext,
}
use switchbot_keypad_bridge.LockSession.State.{
  clear_entries, any_entry_matches, is_recordable, write_entry,
}
use switchbot_keypad_bridge.LockSession.Invariant.{EntryFits, IsValid}

-- The specification forgets where the ring's head stands and what lies behind an entry's length.
-- An entry of length 0 reads as the empty ciphertext, which is never looked up.
abbrev pub History : Type 0
History = List Bytes

abbrev pub remember : Bytes → History → History
remember ciphertext h = ciphertext ∷ take 7 h

abbrev pub has_seen : Bytes → History → Bool
has_seen ciphertext [] = false
has_seen ciphertext (h ∷ hs) = bytes_eq ciphertext h || has_seen ciphertext hs

abbrev pub rev_onto {ℓ} : {A : Type ℓ} → List A → List A → List A
rev_onto [] acc = acc
rev_onto (x ∷ xs) acc = rev_onto xs (x ∷ acc)

abbrev pub newest_first {ℓ} : {A : Type ℓ} → ℕ → List A → List A
newest_first head es = rev_onto (take head es) (rev_onto (drop head es) [])

abbrev pub content : ReplayEntry → Bytes
content e = take e.len e.bytes

abbrev pub contents : List ReplayEntry → History
contents [] = []
contents (e ∷ es) = content e ∷ contents es

abbrev pub history : LockSession → History
history s = newest_first s.replay_head (contents s.replay_history)

contents-set :
    (es : List ReplayEntry) (i : ℕ) (e : ReplayEntry)
    → contents (set es i e) ≡ set (contents es) i (content e)
contents-set [] i e = refl
contents-set (x ∷ es) zero e = refl
contents-set (x ∷ es) (suc i) e = ap (λ r. content x ∷ r) (contents-set es i e)

length-contents : (es : List ReplayEntry) → length (contents es) ≡ length es
length-contents [] = refl
length-contents (e ∷ es) = ap suc (length-contents es)

-- Writing at the head of a ring of eight and moving it on puts the new value first and loses the
-- oldest.
newest_first-set {ℓ} :
    {A : Type ℓ} (h : ℕ) (es : List A) (v : A)
    → length es ≡ 8
    → h < 8
    → newest_first ((h + 1) % 8) (set es h v) ≡ v ∷ take 7 (newest_first h es)
newest_first-set h (a ∷ b ∷ c ∷ d ∷ e ∷ f ∷ g ∷ i ∷ []) v n lt = go h lt
  where
    go :
        (k : ℕ)
        → k < 8
        → newest_first ((k + 1) % 8) (set (a ∷ b ∷ c ∷ d ∷ e ∷ f ∷ g ∷ i ∷ []) k v)
          ≡ v ∷ take 7 (newest_first k (a ∷ b ∷ c ∷ d ∷ e ∷ f ∷ g ∷ i ∷ []))
    go zero k = refl
    go (suc zero) k = refl
    go (suc (suc zero)) k = refl
    go (suc (suc (suc zero))) k = refl
    go (suc (suc (suc (suc zero)))) k = refl
    go (suc (suc (suc (suc (suc zero))))) k = refl
    go (suc (suc (suc (suc (suc (suc zero)))))) k = refl
    go (suc (suc (suc (suc (suc (suc (suc zero))))))) k = refl
    go (suc (suc (suc (suc (suc (suc (suc (suc m)))))))) k = absurd (omega arith)
newest_first-set h _ v n lt = absurd (omega arith)

content-write_entry : (ct : Bytes) (e : ReplayEntry) → content (write_entry ct e) ≡ ct
unfolding write_entry
content-write_entry ct e = take-append_self ct (drop (length ct) e.bytes)

-- Recording a ciphertext of 1 to 32 bytes in a valid session puts it first in the history and forgets
-- the oldest of eight.
pub history-record_ciphertext :
    (ct : Bytes) (s : LockSession)
    → IsValid s
    → is_recordable ct ≡ true
    → history (record_ciphertext ct s) ≡ remember ct (history s)
unfolding record_ciphertext
history-record_ciphertext ct s v k =
    rw (k, contents-set, content-write_entry)
      (newest_first-set s.replay_head (contents s.replay_history) ct
        (length-contents s.replay_history ∙ v.history_size) v.head_in)

has_seen-rev_onto :
    (ct : Bytes) (xs ys : History)
    → has_seen ct (rev_onto xs ys) ≡ (has_seen ct xs || has_seen ct ys)
has_seen-rev_onto ct [] ys = refl
has_seen-rev_onto ct (x ∷ xs) ys = rw (has_seen-rev_onto ct xs (x ∷ ys)) (ground arith)

has_seen-split :
    (ct : Bytes) (h : ℕ) (es : History)
    → (has_seen ct (take h es) || has_seen ct (drop h es)) ≡ has_seen ct es
has_seen-split ct zero es = refl
has_seen-split ct (suc h) [] = refl
has_seen-split ct (suc h) (e ∷ es) = ground (arith, has_seen-split ct h es)

has_seen-newest_first :
    (ct : Bytes) (h : ℕ) (es : History) → has_seen ct (newest_first h es) ≡ has_seen ct es
has_seen-newest_first ct h es = ground (
  arith,
  has_seen-rev_onto ct (take h es) (rev_onto (drop h es) []),
  has_seen-rev_onto ct (drop h es) [],
  has_seen-split ct h es,
)

-- The length test and the `memcmp` together compare with what the entry means.
memcmp-eq-bytes_eq :
    (ct bytes : Bytes) (n : ℕ)
    → n ≤ length bytes
    → ((n == length ct) && memcmp_eq ct bytes) ≡ bytes_eq ct (take n bytes)
memcmp-eq-bytes_eq [] bytes zero h = refl
memcmp-eq-bytes_eq [] [] (suc n) h = absurd (omega arith)
memcmp-eq-bytes_eq [] (b ∷ bs) (suc n) h = ground arith
memcmp-eq-bytes_eq (c ∷ ct) [] zero h = ground arith
memcmp-eq-bytes_eq (c ∷ ct) (b ∷ bs) zero h = ground arith
memcmp-eq-bytes_eq (c ∷ ct) [] (suc n) h = absurd (omega arith)
memcmp-eq-bytes_eq (c ∷ ct) (b ∷ bs) (suc n) h =
    ground (arith, memcmp-eq-bytes_eq ct bs n (omega arith))

any_entry-eq-has_seen :
    (ct : Bytes) (es : List ReplayEntry)
    → All EntryFits es
    → any_entry_matches ct es ≡ has_seen ct (contents es)
unfolding any_entry_matches
any_entry-eq-has_seen ct [] h = refl
any_entry-eq-has_seen ct (e ∷ es) h =
    ap₂ ◌||◌ (memcmp-eq-bytes_eq ct e.bytes e.len (omega arith)) (any_entry-eq-has_seen ct es h.1)

-- In a valid session a ciphertext counts as replayed exactly when it has 1 to 32 bytes and is among
-- the eight of the history.
pub is_replayed-eq-has_seen :
    (ct : Bytes) (s : LockSession)
    → IsValid s
    → is_replayed_ciphertext ct s ≡ (is_recordable ct && has_seen ct (history s))
unfolding is_replayed_ciphertext
is_replayed-eq-has_seen ct s v =
    ap (λ b. is_recordable ct && b)
      (any_entry-eq-has_seen ct s.replay_history v.entries_fit
        ∙ sym (has_seen-newest_first ct s.replay_head (contents s.replay_history)))

contents-clear_entries :
    (es : List ReplayEntry) → contents (clear_entries es) ≡ replicate (length es) []
unfolding clear_entries
contents-clear_entries [] = refl
contents-clear_entries (e ∷ es) = ap (λ r. [] ∷ r) (contents-clear_entries es)

-- Clearing a valid session forgets every ciphertext.
history-clear_replay_history :
    (s : LockSession) → IsValid s → history (clear_replay_history s) ≡ replicate 8 []
unfolding clear_replay_history
history-clear_replay_history s v = rw (contents-clear_entries s.replay_history, v.history_size)
