-- ===== src/Anchor/Signed.antt =====
-- What a checkpoint says, and when none is made (audit_anchor.py, checkpoint_publisher.py).
use openmuse.Common.{String, codes, ◌≡◌, inl, inr, refl, true, all, arith, ok, Outcome-cases, subst}
use openmuse.Audit.{Codec}
use openmuse.Anchor.{
  AuditCheckpoint, Parsed, PublicationReceipt, Web, is_safe, is_plain_https, is_stored, publish,
}

module _ (c : Codec) (w : Web) where
  -- A receipt is given only after a PUT to an HTTPS host without credentials or fragment, under a key
  -- of safe characters, which the server answered with 200, 201 or 204; it names the digest of the
  -- checkpoint's canonical text that was sent.
  pub publish-ok :
      (url_template : String) (checkpoint : AuditCheckpoint) (object_key : String)
      (receipt : PublicationReceipt)
      → publish c w url_template checkpoint object_key ≡ ok receipt
      → (all is_safe (codes object_key) ≡ true)
        × ((parsed : Parsed) × (w.urlsplit receipt.url ≡ ok parsed)
            × (is_plain_https parsed ≡ true)
            × (w.put parsed (w.canonical checkpoint) receipt.sha256
                ≡ ok (receipt.status, receipt.version)))
        × (receipt.sha256 ≡ c.sha256 (w.canonical checkpoint))
        × (is_stored receipt.status ≡ true)
  unfolding publish
  publish-ok url_template checkpoint object_key receipt h =
      elim (Outcome-cases (w.urlsplit (w.fill url_template object_key))) [
        | inr (x, e) ↦ absurd (ground (arith, h, e))
        | inl (parsed, e) ↦
            elim (Outcome-cases
              (w.put parsed (w.canonical checkpoint) (c.sha256 (w.canonical checkpoint)))) [
                | inr (x, g) ↦ absurd (ground (arith, h, e, g))
                | inl ((status, version), g) ↦
                    let is_r : record {
                      url = w.fill url_template object_key;
                      sha256 = c.sha256 (w.canonical checkpoint);
                      status = status;
                      version = version;
                    }
                        ≡ receipt =
                      ground (arith, h, e, g) in
                    subst Good is_r (
                      ground (arith, h, e, g),
                      (parsed, e, ground (arith, h, e, g), g),
                      refl,
                      ground (arith, h, e, g),
                    )
              ]
      ]
    where
      Good : PublicationReceipt → Type 0
      Good r =
          (all is_safe (codes object_key) ≡ true)
          × ((parsed : Parsed) × (w.urlsplit r.url ≡ ok parsed)
              × (is_plain_https parsed ≡ true)
              × (w.put parsed (w.canonical checkpoint) r.sha256 ≡ ok (r.status, r.version)))
          × (r.sha256 ≡ c.sha256 (w.canonical checkpoint))
          × (is_stored r.status ≡ true)
