-- ===== src/Interpolation/Sampled.antt =====
-- What the buffer of snapshots of gbnet/src/interpolation.rs gives at a time.
use gbnet.Prelude.{
  ℕ, suc, ◌≡◌, refl, ap, ◌∙◌, ◌⊎◌, true, false, none, some, List, [], ◌∷◌, ◌++◌, length, arith,
  Bool-cases, ltb, inl, inr, All,
}
use gbnet.Float.{Float, Narrowing}
use gbnet.Interpolation.{
  Interpolatable, TimestampedSnapshot, SnapshotBuffer, back, brackets, between, bracketed, sample,
}

two_or_more : (n : ℕ) → ltb (suc (suc n)) 2 ≡ false
two_or_more n = ground arith

module _ {ℓ κ} {V : Type ℓ} {T : Type κ} ⦃v : Float V⦄ where
  -- A time that is not `<=` a timestamp is `>=` it: neither is NaN.
  abbrev pub IsComparable : V → TimestampedSnapshot V T → Type 0
  IsComparable target s = v.le target s.timestamp ≡ false → v.le s.timestamp target ≡ true

  -- Two snapshots, one next to the other in a list, around a time.
  pub record Around (target : V) (l : List (TimestampedSnapshot V T))
      (a b : TimestampedSnapshot V T) : Type (ℓ ⊔ κ) where
    pub earlier : List (TimestampedSnapshot V T)
    pub later : List (TimestampedSnapshot V T)
    pub split : l ≡ earlier ++ a ∷ b ∷ later
    pub inside : brackets target a b ≡ true

  Around-cons :
      (target : V) (l : List (TimestampedSnapshot V T)) (x a b : TimestampedSnapshot V T)
      → Around target l a b
      → Around target (x ∷ l) a b
  Around-cons target l x a b r = record {
    earlier = x ∷ r.earlier;
    later = r.later;
    split = ap (λ t. x ∷ t) r.split;
    inside = r.inside;
  }

module _ {ℓ κ μ} {V : Type ℓ} {T : Type μ} (W : Type κ) ⦃v : Float V⦄ ⦃f : Float W⦄
    ⦃n : Narrowing V W⦄ ⦃i : Interpolatable W T⦄ where
  -- The part of the way from one snapshot to the other that a time has come.
  abbrev part_of_way : V → TimestampedSnapshot V T → TimestampedSnapshot V T → W
  part_of_way target a b =
      n.narrow (v.div (v.sub target a.timestamp) (v.sub b.timestamp a.timestamp))

  -- A state is the one interpolated between two snapshots at a time: the first of the two where the
  -- second is not later, and else the linear interpolation of the two at the part of the way that
  -- the time has come, which is taken from 0 to 1.
  abbrev pub Interpolates : V → TimestampedSnapshot V T → TimestampedSnapshot V T → T → Type μ
  Interpolates target a b x =
      let together = v.le (v.sub b.timestamp a.timestamp) (v.ratio 0 1) in
      let before = f.lt (part_of_way target a b) (f.ratio 0 1) in
      let beyond = f.lt (f.ratio 1 1) (part_of_way target a b) in
      ((together ≡ true) × (x ≡ a.state))
      ⊎ ((together ≡ false) × (before ≡ true) × (x ≡ i.lerp a.state b.state (f.ratio 0 1)))
      ⊎ ((together ≡ false)
          × (before ≡ false)
          × (beyond ≡ true)
          × (x ≡ i.lerp a.state b.state (f.ratio 1 1)))
      ⊎ ((together ≡ false)
          × (before ≡ false)
          × (beyond ≡ false)
          × (x ≡ i.lerp a.state b.state (part_of_way target a b)))

  between-Interpolates :
      (target : V) (a b : TimestampedSnapshot V T) → Interpolates target a b (between W target a b)
  unfolding between
  between-Interpolates target a b =
      elim (Bool-cases (v.le (v.sub b.timestamp a.timestamp) (v.ratio 0 1))) [
        | inl h ↦ inl (h, simp (h, between) refl)
        | inr h ↦ elim (Bool-cases (f.lt (part_of_way target a b) (f.ratio 0 1))) [
          | inl low ↦ inr (inl (h, low, simp (h, low, between) refl))
          | inr not_low ↦ elim (Bool-cases (f.lt (f.ratio 1 1) (part_of_way target a b))) [
            | inl high ↦ inr (inr (inl (h, not_low, high, simp (h, not_low, high, between) refl)))
            | inr mid ↦ inr (inr (inr (h, not_low, mid, simp (h, not_low, mid, between) refl)))
          ]
        ]
      ]

  abbrev Found : V → List (TimestampedSnapshot V T) → Type (ℓ ⊔ μ)
  Found target l =
      (a : TimestampedSnapshot V T) × (b : TimestampedSnapshot V T) × Around target l a b
      × (bracketed W target l ≡ some (between W target a b))

  bracketed-here :
      (target : V) (a b : TimestampedSnapshot V T) (rest : List (TimestampedSnapshot V T))
      → v.le a.timestamp target ≡ true
      → v.le target b.timestamp ≡ true
      → Found target (a ∷ b ∷ rest)
  unfolding bracketed
  bracketed-here target a b rest h k = (
    a,
    b,
    record { earlier = []; later = rest; split = refl; inside = simp (h, k) refl },
    simp (h, k, bracketed) refl,
  )

  bracketed-between :
      (target : V) (a b : TimestampedSnapshot V T) (rest : List (TimestampedSnapshot V T))
      (last : TimestampedSnapshot V T)
      → v.le a.timestamp target ≡ true
      → back (b ∷ rest) ≡ some last
      → v.le target last.timestamp ≡ true
      → All (IsComparable target) (b ∷ rest)
      → Found target (a ∷ b ∷ rest)
  unfolding bracketed
  bracketed-between target a b [] last h e k c =
      let same = ap (λ o. elim o [ none ↦ b | some s ↦ s ]) e in
      bracketed-here target a b [] h (ap (λ s. v.le target s.timestamp) same ∙ k)
  bracketed-between target a b (x ∷ rest) last h e k (c, cs) =
      elim (Bool-cases (v.le target b.timestamp)) [
        | inl g ↦ bracketed-here target a b (x ∷ rest) h g
        | inr g ↦
            let (p, q, r, s) = bracketed-between target b x rest last (c g) e k cs in
            (p, q, Around-cons target (b ∷ x ∷ rest) a p q r, simp (h, g, s, bracketed) refl)
      ]

  -- Let the buffer hold at least two snapshots, and let the time that is played back, the delay
  -- before the render time, compare with each timestamp, and lie between the oldest and the newest.
  -- Then sample gives the state interpolated between two neighbours in the buffer that are around
  -- this time: the state of the first where the second is not later, and else the linear
  -- interpolation at the part of the way between them that the time has come, from 0 to 1.
  pub sample-between :
      (s : SnapshotBuffer V T) (render_time : V) (first second : TimestampedSnapshot V T)
      (rest : List (TimestampedSnapshot V T)) (last : TimestampedSnapshot V T)
      → s.snapshots ≡ first ∷ second ∷ rest
      → back s.snapshots ≡ some last
      → All (IsComparable (v.sub render_time s.playback_delay_ms)) s.snapshots
      → v.le first.timestamp (v.sub render_time s.playback_delay_ms) ≡ true
      → v.le (v.sub render_time s.playback_delay_ms) last.timestamp ≡ true
      → (a : TimestampedSnapshot V T) × (b : TimestampedSnapshot V T) × Around
          (v.sub render_time s.playback_delay_ms)
          s.snapshots
          a
          b
        × (x : T) × (sample W s render_time ≡ some x)
        × Interpolates (v.sub render_time s.playback_delay_ms) a b x
  unfolding sample
  sample-between s render_time first second rest last e l c h k =
      let (a, b, r, q) =
        bracketed-between _ first second rest last h (simp (e) at l) k (simp (e) at c).1 in
      (
        a,
        b,
        simp (e) r,
        between W _ a b,
        simp (e, q, two_or_more (length rest), sample) refl,
        between-Interpolates _ a b,
      )
