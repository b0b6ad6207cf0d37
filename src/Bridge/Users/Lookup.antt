-- ===== src/Bridge/Users/Lookup.antt =====
-- components/switchbot_keypad_bridge/switchbot_keypad_bridge.cpp: which entry `lookup_user_` chooses.
use switchbot_keypad_bridge.Common.{
  ℕ, ◌+◌, ◌≤◌, ◌<◌, ◌≡◌, refl, sym, ap, ◌∙◌, subst, Bool, true, false, List, [], ◌∷◌, ◌++◌, arith,
  if◌then◌else◌, All, ℤ, pos, negsuc,
}
use switchbot_keypad_bridge.LockProtocol.{UnlockMethod}
use switchbot_keypad_bridge.Bridge.Users.{
  UserEntry, Best, no_best, entry_applies, entry_score, scan_entry, scan, lookup_user,
}

module _ (m : UnlockMethod) (i : ℤ) where
  -- How specific an entry is for the credential: 0 if it does not apply, then 1 for any credential, 2
  -- for any method of the slot, 3 for any slot of the method, and 4 for both.
  abbrev pub rank : UserEntry → ℕ
  rank u = if entry_applies m i u then entry_score u + 1 else 0

  abbrev pub AllBelow : ℕ → List UserEntry → Type 0
  AllBelow k = All (λ u. rank u < k)

  abbrev pub AllUpTo : ℕ → List UserEntry → Type 0
  AllUpTo k = All (λ u. rank u ≤ k)

  -- The rank of the best entry so far.
  abbrev best_rank : Best → ℕ
  best_rank b = elim (b.score) [ pos n ↦ n + 1 | negsuc n ↦ 0 ]

  scan_below :
      (w : Bool) (us : List UserEntry) (b : Best) (k : ℕ)
      → AllBelow k us
      → best_rank b < k
      → best_rank (scan m i w us b) < k
  unfolding scan
  scan_below w [] b k h r = r
  scan_below w (u ∷ us) b k h r =
      scan_below w us (scan_entry m i w u b) k h.1 (unfold scan_entry in ground (arith, h.0))

  scan-append :
      (w : Bool) (xs ys : List UserEntry) (b : Best)
      → scan m i w (xs ++ ys) b ≡ scan m i w ys (scan m i w xs b)
  unfolding scan
  scan-append w [] ys b = refl
  scan-append w (x ∷ xs) ys b = scan-append w xs ys (scan_entry m i w x b)

  abbrev chosen : UserEntry → Best
  chosen u = record { score = pos (entry_score u); name = u.name }

  scan_up_to :
      (w : Bool) (us : List UserEntry) (b : Best) (k : ℕ)
      → AllUpTo k us
      → best_rank b ≤ k
      → best_rank (scan m i w us b) ≤ k
  unfolding scan
  scan_up_to w [] b k h r = r
  scan_up_to w (u ∷ us) b k h r =
      scan_up_to w us (scan_entry m i w u b) k h.1 (unfold scan_entry in ground (arith, h.0))

  -- Entries below the best leave it, whoever wins ties.
  scan_keeps :
      (w : Bool) (us : List UserEntry) (b : Best)
      → 0 < best_rank b
      → AllBelow (best_rank b) us
      → scan m i w us b ≡ b
  unfolding scan
  scan_keeps w [] b p h = refl
  scan_keeps w (u ∷ us) b p h = rw (keep) (scan_keeps w us b p h.1)
    where
      keep : scan_entry m i w u b ≡ b
      keep = unfold scan_entry in ground (arith, h.0)

  -- Where ties are not won, entries up to the best leave it too.
  scan_keeps_ties :
      (us : List UserEntry) (b : Best)
      → 0 < best_rank b
      → AllUpTo (best_rank b) us
      → scan m i false us b ≡ b
  unfolding scan
  scan_keeps_ties [] b p h = refl
  scan_keeps_ties (u ∷ us) b p h = rw keep (scan_keeps_ties us b p h.1)
    where
      keep : scan_entry m i false u b ≡ b
      keep = unfold scan_entry in ground (arith, h.0)

  scan_nothing : (w : Bool) (us : List UserEntry) → AllUpTo 0 us → scan m i w us no_best ≡ no_best
  unfolding scan
  scan_nothing w [] h = refl
  scan_nothing w (u ∷ us) h = rw keep (scan_nothing w us h.1)
    where
      keep : scan_entry m i w u no_best ≡ no_best
      keep = unfold scan_entry in ground (arith, h.0)

  take_tie :
      (u : UserEntry) (b : Best)
      → 0 < rank u
      → best_rank b ≤ rank u
      → scan_entry m i true u b ≡ chosen u
  unfolding scan_entry
  take_tie u b p h = ground arith

  take_better :
      (w : Bool) (u : UserEntry) (b : Best) → best_rank b < rank u → scan_entry m i w u b ≡ chosen u
  unfolding scan_entry
  take_better w u b h = ground arith

  rank-chosen : (u : UserEntry) → 0 < rank u → best_rank (chosen u) ≡ rank u
  rank-chosen u p = ground arith

  scan-web :
      (before : List UserEntry) (u : UserEntry) (after : List UserEntry)
      → 0 < rank u
      → AllUpTo (rank u) before
      → AllBelow (rank u) after
      → scan m i true (before ++ u ∷ after) no_best ≡ chosen u
  unfolding scan
  scan-web before u after p hb ha =
      let b1 = scan m i true before no_best in
      let r = rank-chosen u p in
      scan-append true before (u ∷ after) no_best
      ∙ ap (scan m i true after)
          (take_tie u b1 p (scan_up_to true before no_best (rank u) hb (omega arith)))
      ∙ scan_keeps true after (chosen u) (omega (arith, r))
          (subst (λ k. AllBelow k after) (sym r) ha)

  scan_yaml :
      (u : UserEntry) (after : List UserEntry) (b : Best)
      → 0 < rank u
      → best_rank b < rank u
      → AllUpTo (rank u) after
      → scan m i false (u ∷ after) b ≡ chosen u
  unfolding scan
  scan_yaml u after b p h ha =
      let r = rank-chosen u p in
      ap (scan m i false after) (take_better false u b h)
      ∙ scan_keeps_ties after (chosen u) (omega (arith, r))
          (subst (λ k. AllUpTo k after) (sym r) ha)

  -- Where a web entry applies, no web entry before it is more specific, those after it are less
  -- specific, and no YAML entry is more specific, the name is that entry's: a tie goes to the web list
  -- and there to the last entry.
  pub lookup_user-web :
      (before : List UserEntry) (u : UserEntry) (after users : List UserEntry)
      → 0 < rank u
      → AllUpTo (rank u) before
      → AllBelow (rank u) after
      → AllUpTo (rank u) users
      → lookup_user (before ++ u ∷ after) users m i ≡ u.name
  unfolding lookup_user
  lookup_user-web before u after users p hb ha hu =
      ap (λ (b : Best). b.name)
        (ap (scan m i false users) (scan-web before u after p hb ha)
          ∙ scan_keeps_ties users (chosen u) (omega (arith, r))
              (subst (λ k. AllUpTo k users) (sym r) hu))
    where
      r : best_rank (chosen u) ≡ rank u
      r = rank-chosen u p

  -- Where a YAML entry applies, all web entries and the YAML entries before it are less specific, and
  -- those after it are not more specific, the name is that entry's: within the YAML list a tie goes
  -- to the first entry.
  pub lookup_user-yaml :
      (web_users before : List UserEntry) (u : UserEntry) (after : List UserEntry)
      → 0 < rank u
      → AllBelow (rank u) web_users
      → AllBelow (rank u) before
      → AllUpTo (rank u) after
      → lookup_user web_users (before ++ u ∷ after) m i ≡ u.name
  unfolding lookup_user
  lookup_user-yaml web_users before u after p hw hb ha =
      ap (λ (b : Best). b.name)
        (scan-append false before (u ∷ after) start
          ∙ scan_yaml u after (scan m i false before start) p
              (scan_below false before start (rank u) hb
                (scan_below true web_users no_best (rank u) hw p))
              ha)
    where
      start : Best
      start = scan m i true web_users no_best

  -- Where no entry of either list applies, the name is empty.
  lookup_user-none :
      (web_users users : List UserEntry)
      → AllUpTo 0 web_users
      → AllUpTo 0 users
      → lookup_user web_users users m i ≡ []
  unfolding lookup_user
  lookup_user-none web_users users hw hu =
      ap (λ (b : Best). b.name)
        (ap (scan m i false users) (scan_nothing true web_users hw) ∙ scan_nothing false users hu)
