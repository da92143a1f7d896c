-- ===== src/Discovery/Channels.antt =====
-- The channel of a device that koreader-plugin/internal/localsend/scan.go gives on.
use pdf_to_epub.Discovery.{DiscoveryChannel, better, best_of, best_discovery_channel}
use pdf_to_epub.Prelude.{
  ◌≤◌, Bool, true, false, Option, none, some, [], ◌∷◌, Str, ◌≡◌, refl, ◌∙◌, ◌⊎◌, inl, inr, arith,
  All,
}
use pdf_to_epub.Prelude.Map.{Map}

-- No channel of a family that is preferred, and none of the same family that was seen later.
abbrev pub Beats : (Str → Bool) → DiscoveryChannel → DiscoveryChannel → Type 0
Beats is_v6 best channel =
    ((is_v6 best.host ≡ true) × (is_v6 channel.host ≡ false))
    ⊎ (is_v6 best.host ≡ is_v6 channel.host) × (channel.last_seen ≤ best.last_seen)

trans-Beats :
    (is_v6 : Str → Bool) (a b c : DiscoveryChannel)
    → Beats is_v6 a b
    → Beats is_v6 b c
    → Beats is_v6 a c
trans-Beats is_v6 a b c p q = ground (arith, p, q)

better-Beats :
    (is_v6 : Str → Bool) (best channel : DiscoveryChannel)
    → Beats is_v6 (better is_v6 best channel) best × Beats is_v6 (better is_v6 best channel) channel
better-Beats is_v6 best channel = ground arith

-- The best channel so far, and the rest of the map.
best_of-Beats :
    (is_v6 : Str → Bool) (best : DiscoveryChannel) (m : Map DiscoveryChannel)
    → Beats is_v6 (best_of is_v6 best m) best
      × All (λ (e : Str × DiscoveryChannel). Beats is_v6 (best_of is_v6 best m) e.1) m
unfolding best_of
best_of-Beats is_v6 best [] = (ground arith, tt)
best_of-Beats is_v6 best ((key, channel) ∷ m) =
    let next = better is_v6 best channel in
    let r = best_of is_v6 next m in
    let (here, rest) = best_of-Beats is_v6 next m in
    let (over, under) = better-Beats is_v6 best channel in
    (trans-Beats is_v6 r next best here over, (trans-Beats is_v6 r next channel here under, rest))

-- One of the channels.
abbrev pub Among : DiscoveryChannel → Map DiscoveryChannel → Type 0
Among c [] = ⊥
Among c ((key, channel) ∷ m) = (c ≡ channel) ⊎ Among c m

better-either :
    (is_v6 : Str → Bool) (best channel : DiscoveryChannel)
    → (better is_v6 best channel ≡ best) ⊎ (better is_v6 best channel ≡ channel)
better-either is_v6 best channel = ground arith

best_of-Among :
    (is_v6 : Str → Bool) (key : Str) (best : DiscoveryChannel) (m : Map DiscoveryChannel)
    → Among (best_of is_v6 best m) ((key, best) ∷ m)
unfolding best_of
best_of-Among is_v6 key best [] = inl refl
best_of-Among is_v6 key best ((k, channel) ∷ m) =
    elim (best_of-Among is_v6 k (better is_v6 best channel) m) [
      | inr a ↦ inr (inr a)
      | inl e ↦ elim (better-either is_v6 best channel) [
        | inl b ↦ inl (e ∙ b)
        | inr c ↦ inr (inl (e ∙ c))
      ]
    ]

abbrev pub IsBest : (Str → Bool) → Map DiscoveryChannel → Option DiscoveryChannel → Type 0
IsBest is_v6 m none = m ≡ []
IsBest is_v6 m (some best) =
    Among best m × All (λ (e : Str × DiscoveryChannel). Beats is_v6 best e.1) m

-- The channel that is chosen of a device is one of its channels, it is of IPv6 if any of them is, and
-- none of them of the same family was seen later; no channel is chosen only where the device has none.
best_discovery_channel-IsBest :
    (is_v6 : Str → Bool) (m : Map DiscoveryChannel)
    → IsBest is_v6 m (best_discovery_channel is_v6 m)
unfolding best_discovery_channel best_of
best_discovery_channel-IsBest is_v6 [] = refl
best_discovery_channel-IsBest is_v6 ((key, channel) ∷ m) =
    (best_of-Among is_v6 key channel m, best_of-Beats is_v6 channel m)
