-- ===== src/Tests/Publishing.antt =====
-- Publishing (crates/mqtt/v3/src/publisher.rs) on a queue of a few places.
use blazebee.Base.{
  ℕ, ◌≤◌, ◌≡◌, ◌≢◌, ◌⊎◌, refl, false, [], ◌++◌, zero, suc, ◌==◌, ◌||◌, ok, err, arith,
}
use blazebee.Base.Text.{codes, utf8_len, any, contains, trim_start_matches, trim_end_matches}
use blazebee.Error.{queue_full, from_client_error}
use blazebee.Serializer.{encode, serialize, compress}
use blazebee.Framer.{frames, chunks, enumerate, frame}
use blazebee.Publisher.{
  publish, prepare, dispatch, publish_whole, publish_frames, enqueue, enqueue_all, qos_of,
  join_topic, checked_sub, publish_overhead,
}
use blazebee.Publisher.Ready.{Delivered, Broken}
use blazebee.Publisher.Delivery.{publish_delivers, publish_fails}
use blazebee.Publisher.Packets.{Added, IsPacket, publish_fits}
use blazebee.Publisher.Topics.{
  replicate, StartsClean, EndsClean, join_topic_lem, join_topic_overflow,
}
use blazebee.Config.Valid.{IsTopic}
use blazebee.Tests.Fixtures.{
  queue, codecs, client, law, publisher, framing_publisher, sample, long_sample, endpoint,
}

whole : (publish codecs client publisher sample endpoint).1 ≡ ok 19
unfolding publish prepare dispatch publish_whole enqueue qos_of join_topic checked_sub
    publish_overhead encode serialize compress utf8_len trim_start_matches trim_end_matches
    from_client_error
whole = refl

framed : (publish codecs client (framing_publisher 8) long_sample endpoint).1 ≡ ok 50
unfolding publish prepare dispatch publish_frames enqueue enqueue_all qos_of join_topic checked_sub
    publish_overhead encode serialize compress utf8_len trim_start_matches trim_end_matches
    from_client_error frames chunks enumerate frame
framed = refl

cut : (publish codecs client (framing_publisher 1) long_sample endpoint).1 ≡ err queue_full
unfolding publish prepare dispatch publish_frames enqueue enqueue_all qos_of join_topic checked_sub
    publish_overhead encode serialize compress utf8_len trim_start_matches trim_end_matches
    from_client_error frames chunks enumerate frame
cut = refl

publish_delivers_example :
    Delivered codecs client publisher
      (publish codecs client publisher sample endpoint).0
      sample
      endpoint
      19
publish_delivers_example =
    publish_delivers codecs client law publisher sample endpoint 19 (omega arith) whole

publish_fails_example :
    let p' = (publish codecs client (framing_publisher 1) long_sample endpoint).0 in
    (client.sent p'.client ≡ [])
    ⊎ Broken codecs client (framing_publisher 1) p' long_sample endpoint queue_full
publish_fails_example =
    publish_fails codecs client law (framing_publisher 1) long_sample endpoint queue_full
      (omega arith) cut

abbrev joined_len : ℕ
joined_len = utf8_len (join_topic (framing_publisher 8).base_topic endpoint.topic)

joined_short : joined_len ≡ 8
unfolding join_topic utf8_len trim_start_matches trim_end_matches
joined_short = refl

publish_fits_example :
    Added client
      (queue 8)
      (publish codecs client (framing_publisher 8) long_sample endpoint).0.client
      (IsPacket 64)
publish_fits_example =
    publish_fits codecs client law (framing_publisher 8) long_sample endpoint (omega arith)
      (omega (arith, joined_short))

join_topic_lem_example :
    join_topic (codes "a/b" ++ replicate 2 b'/') (replicate 1 b'/' ++ codes "c") ≡ codes "a/b/c"
join_topic_lem_example = join_topic_lem 2 1 (codes "a/b") (codes "c") (omega arith) (omega arith)

letters-short : (n : ℕ) → utf8_len (replicate n b'a') ≡ n
unfolding utf8_len
letters-short zero = refl
letters-short (suc n) = omega (arith, letters-short n)

letters-plain : (n : ℕ) → any (λ c. c == b'+' || c == b'#') (replicate n b'a') ≡ false
unfolding any
letters-plain zero = refl
letters-plain (suc n) = letters-plain n

letters-no_nul : (n : ℕ) → contains (replicate n b'a') 0 ≡ false
unfolding contains
letters-no_nul zero = refl
letters-no_nul (suc n) = letters-no_nul n

letters-IsTopic : (n : ℕ) → n ≤ 65535 → IsTopic (replicate n b'a')
letters-IsTopic n h = record {
  short = omega (arith, h, letters-short n);
  no_wildcard = letters-plain n;
  no_nul = letters-no_nul n;
}

letters-EndsClean : (n : ℕ) → EndsClean (replicate n b'a')
letters-EndsClean zero = tt
letters-EndsClean (suc zero) = omega arith
letters-EndsClean (suc (suc n)) = letters-EndsClean (suc n)

letters-StartsClean : (n : ℕ) → StartsClean (replicate n b'a')
letters-StartsClean zero = tt
letters-StartsClean (suc n) = omega arith

letters-some : (n : ℕ) → replicate (suc n) b'a' ≢ []
letters-some n h = cc

join_topic_overflow_example : ¬ IsTopic (join_topic (replicate 40_000 b'a') (replicate 30_000 b'a'))
join_topic_overflow_example =
    join_topic_overflow (replicate 40_000 b'a') (replicate 30_000 b'a')
      (letters-IsTopic 40_000 (omega arith)) (letters-IsTopic 30_000 (omega arith))
      (letters-EndsClean 40_000) (letters-StartsClean 30_000) (letters-some 39_999)
      (omega (arith, letters-short 40_000, letters-short 30_000))
