-- ===== src/Block/Cache/Sync.antt =====
-- `bsync` of buffer_cache.c: what it writes back.
use vinix_os.Base.{
  ℕ, zero, suc, ◌≡◌, refl, ap, ◌∙◌, sym, true, false, inl, inr, List, [], ◌∷◌, ◌++◌, arith, length,
  set, Option-cases,
}
use mathlib.Core.Path.{subst}
use mathlib.Core.List.{append_assoc}
use vinix_os.Base.Result.{Result, ok, err}
use vinix_os.Block.Device.{Drivers}
use vinix_os.Block.Cache.{Buffer, Cache, find_cached, flush_buffer, sync_slots, bsync}
use vinix_os.Block.Cache.Slots.{At, find_cached-Hit, find_cached-none}
use vinix_os.Block.Cache.View.{IsCoherent, view, view-Hit, view-none, matches-eq}
use vinix_os.Block.Cache.Flush.{
  Transparent, Transparent-refl, Transparent-trans, flush_buffer-Flushed, flush_slot-Transparent,
}

-- A slot in the middle of a list.
At-middle : (pre bs : List Buffer) (b : Buffer) → At (pre ++ (b ∷ bs)) (length pre) b
At-middle [] bs b = refl
At-middle (x ∷ pre) bs b = At-middle pre bs b

set_middle :
    (pre bs : List Buffer) (b n : Buffer) → set (pre ++ (b ∷ bs)) (length pre) n ≡ pre ++ (n ∷ bs)
set_middle [] bs b n = refl
set_middle (x ∷ pre) bs b n = ap (λ t. x ∷ t) (set_middle pre bs b n)

-- Every valid buffer is clean.
abbrev pub AllClean : List Buffer → Type 0
AllClean [] = Unit {0}
AllClean (b ∷ bs) = (b.valid ≡ true → b.dirty ≡ false) × AllClean bs

AllClean-At :
    (bs : List Buffer) (i : ℕ) {b : Buffer}
    → AllClean bs
    → At bs i b
    → b.valid ≡ true
    → b.dirty ≡ false
AllClean-At [] i h at = cc
AllClean-At (x ∷ bs) zero {b} (h, _) at =
    let same : x ≡ b = ground arith in subst (λ y. y.valid ≡ true → y.dirty ≡ false) same h
AllClean-At (x ∷ bs) (suc i) (_, h) at = AllClean-At bs i h at

-- The last error after a slot has been written back.
abbrev after : Result (Unit {0}) → Result (Unit {0}) → Result (Unit {0})
after rc last_err = elim rc [ ok _ ↦ last_err | err e ↦ err e ]

after_ok :
    (rc last_err : Result (Unit {0}))
    → after rc last_err ≡ ok tt
    → (rc ≡ ok tt) × (last_err ≡ ok tt)
after_ok (ok tt) last_err h = (refl, h)
after_ok (err e) last_err h = cc

module _ (drivers : Drivers) where
  open drivers use {State, content}

  sync_slots-Transparent :
      (pre bs : List Buffer) (last_err : Result (Unit {0})) (s : State)
      → IsCoherent drivers (pre ++ bs) s
      → let (rc, bs', s') = sync_slots drivers bs last_err s in
        Transparent drivers (pre ++ bs) s (pre ++ bs') s'
  unfolding sync_slots
  sync_slots-Transparent pre [] last_err s coherent = Transparent-refl drivers coherent
  sync_slots-Transparent pre (b ∷ bs) last_err s coherent =
      let rc = (flush_buffer drivers b s).0 in
      let b' = (flush_buffer drivers b s).1 in
      let s' = (flush_buffer drivers b s).2 in
      let one =
        subst (λ x. Transparent drivers (pre ++ (b ∷ bs)) s x s') (set_middle pre bs b b')
          (flush_slot-Transparent drivers (pre ++ (b ∷ bs)) (length pre) b s (At-middle pre bs b)
            coherent (flush_buffer-Flushed drivers b s).rewritten) in
      let snoc = append_assoc pre (b' ∷ []) in
      let rest =
        sync_slots-Transparent (pre ++ (b' ∷ [])) bs (after rc last_err) s'
          (subst (λ x. IsCoherent drivers x s') (sym (snoc bs)) one.coherent) in
      Transparent-trans drivers one (
        subst
          (λ x.
            Transparent drivers x s'
              (pre ++ (b' ∷ (sync_slots drivers bs (after rc last_err) s').1))
              (sync_slots drivers bs (after rc last_err) s').2)
          (snoc bs)
          (subst
            (λ x.
              Transparent drivers ((pre ++ (b' ∷ [])) ++ bs) s' x
                (sync_slots drivers bs (after rc last_err) s').2)
            (snoc _) rest))

  sync_slots-AllClean :
      (bs : List Buffer) (last_err : Result (Unit {0})) (s : State)
      → (sync_slots drivers bs last_err s).0 ≡ ok tt
      → AllClean (sync_slots drivers bs last_err s).1 × (last_err ≡ ok tt)
  unfolding sync_slots
  sync_slots-AllClean [] last_err s h = (tt, h)
  sync_slots-AllClean (b ∷ bs) last_err s h =
      let rc = (flush_buffer drivers b s).0 in
      let (rest, e) = sync_slots-AllClean bs (after rc last_err) (flush_buffer drivers b s).2 h in
      let (done, e') = after_ok rc last_err e in
      (((flush_buffer-Flushed drivers b s).clean done, rest), e')

  -- From a coherent cache, `bsync` keeps the cache coherent and changes nothing of what the media
  -- show, whether it succeeds or fails.
  pub bsync-Transparent :
      (c : Cache) (s : State)
      → IsCoherent drivers c.buffers s
      → let (rc, c', s') = bsync drivers c s in Transparent drivers c.buffers s c'.buffers s'
  unfolding bsync
  bsync-Transparent c s coherent = sync_slots-Transparent [] c.buffers (ok tt) s coherent

  -- From a coherent cache, if `bsync` reports success, the media themselves then hold at every sector
  -- what they showed before the call.
  pub bsync-content :
      (c : Cache) (s : State)
      → IsCoherent drivers c.buffers s
      → (bsync drivers c s).0 ≡ ok tt
      → (bdev lba : ℕ) → content (bsync drivers c s).2 bdev lba ≡ view drivers c.buffers s bdev lba
  unfolding bsync
  bsync-content c s coherent h bdev lba =
      let all = sync_slots-Transparent [] c.buffers (ok tt) s coherent in
      stored (sync_slots drivers c.buffers (ok tt) s).1 (sync_slots drivers c.buffers (ok tt) s).2
        all.coherent (sync_slots-AllClean c.buffers (ok tt) s h).0 bdev lba
      ∙ all.same bdev lba
    where
      stored :
          (bs : List Buffer) (s' : State)
          → IsCoherent drivers bs s'
          → AllClean bs
          → (bdev lba : ℕ) → content s' bdev lba ≡ view drivers bs s' bdev lba
      stored bs s' coherent' clean bdev lba = elim (Option-cases (find_cached bdev lba bs)) [
        | inl gone ↦
            sym (view-none drivers bs s' bdev lba (λ j b. find_cached-none bdev lba bs gone j))
        | inr (i, found) ↦
            let hit = find_cached-Hit bdev lba bs found in
            let m = matches-eq bdev lba hit.buffer hit.match in
            let held =
              coherent'.clean i hit.buffer hit.at m.0 (AllClean-At bs i clean hit.at m.0) in
            sym (
              view-Hit drivers bs s' coherent' bdev lba i hit.at hit.match
              ∙ held
              ∙ ap (λ k. content s' k hit.buffer.lba) m.1
              ∙ ap (content s' bdev) m.2)
      ]
