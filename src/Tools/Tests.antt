-- ===== src/Tools/Tests.antt =====
-- The file tools and FetchURL (tools.py) on one workspace and one network.
use openmuse.Common.{
  split, ◌≡◌, ◌≢◌, refl, String, codes, Bool, true, false, not, ◌||◌, ap, arith, none, some, List,
  [], ◌∷◌, ◌==◌, ok, err, value_error, os_error, any, all, timeout_error, if◌then◌else◌, text_eq,
}
use openmuse.Tools.{
  Entries, file, dir, link, end, entry, components, find, set, universal, read_leaf, read_from,
  read_file, write_leaf, write_from, write_file,
}
use openmuse.Tools.Fetch.{
  SplitUrl, Network, Target, checked_url, distinct, drop_all, try_all, fetch_url,
}
use openmuse.Tools.Files.{write_file-read, write_file-frame}
use openmuse.Tools.Reach.{fetch_url-kept}
use openmuse.Tools.Replies.{IsAnswered, fetch_url-IsAnswered}

abbrev workspace : Entries
workspace =
    entry (codes "a") (dir (entry (codes "x") (file (codes "old")) end))
      (entry (codes "l") link end)

splits : components (codes "a/x") ≡ ok (codes "a" ∷ codes "x" ∷ [])
unfolding components split text_eq
splits = refl

escapes : components (codes "a/../x") ≡ err (value_error "path escapes workspace")
unfolding components split text_eq
escapes = refl

follows_no_link : read_file workspace (codes "l/x") ≡ err (os_error "Not a directory")
unfolding read_file components split find read_from text_eq
follows_no_link = refl

wrote : (write_file workspace (codes "a/n/y") (codes "new")).0 ≡ ok (codes "wrote a/n/y")
unfolding write_file components split write_from write_leaf find set text_eq
wrote = refl

write_file-read_example :
    read_file (write_file workspace (codes "a/n/y") (codes "new")).1 (codes "a/n/y")
    ≡ ok (universal (codes "new"))
write_file-read_example = write_file-read workspace (codes "a/n/y") (codes "new") wrote

was : read_file workspace (codes "a/x") ≡ ok (codes "old")
unfolding read_file components split find read_from read_leaf universal text_eq
was = refl

other_path : codes "a/x" ≢ codes "a/n/y"
other_path = ground arith

write_file-frame_example :
    read_file (write_file workspace (codes "a/n/y") (codes "new")).1 (codes "a/x")
    ≡ ok (codes "old")
write_file-frame_example =
    write_file-frame workspace (codes "a/n/y") (codes "new") (codes "a/x") was other_path

abbrev page : SplitUrl
page = record {
  scheme = "https";
  hostname = some "h";
  has_user = false;
  has_password = false;
  port = ok none;
  path = [];
  query = codes "q";
}

abbrev private_page : SplitUrl
private_page = record {
  scheme = "http";
  hostname = some "p";
  has_user = false;
  has_password = false;
  port = ok (some 80);
  path = codes "/x";
  query = [];
}

abbrev is_public : String → Bool
is_public a = a == "1" || a == "2"

-- "h" has two public addresses, of which the first does not answer; "p" has a private one too. The
-- world lists the addresses that were connected to.
abbrev network : Network (List String)
network = record {
  urlsplit = λ u. if u == "https://h?q" then ok page else ok private_page;
  idna = λ h. ok h;
  getaddrinfo = λ h p n. (if h == "h" then ok ("1" ∷ "1" ∷ "2" ∷ []) else ok ("2" ∷ "10" ∷ []), n);
  is_global = is_public;
  exchange = λ c t h n. (
    if c.address == "2" then ok (200, codes "hi") else err (timeout_error "timed out"),
    c.address ∷ n,
  );
  decode = λ t. t;
}

abbrev private_target : Target
private_target = record { scheme = "http"; host = "p"; port = 80; target = codes "/x" }

fetched : fetch_url network "https://h?q" [] ≡ (ok (codes "hi"), "2" ∷ "1" ∷ [])
unfolding fetch_url checked_url distinct drop_all try_all
fetched = refl

fetch_url-kept_example : all is_public (fetch_url network "https://h?q" []).1 ≡ true
fetch_url-kept_example =
    fetch_url-kept network (λ log. all is_public log ≡ true) (λ h p n k. k)
      (λ c t h n global web k. ground arith) "https://h?q" [] refl

fetch_url-IsAnswered_example :
    (t : Target) × (found : List String) × (checked_url network "https://h?q" ≡ ok t)
    × ((network.getaddrinfo t.host t.port []).0 ≡ ok found)
    × (any (λ a. not (network.is_global a)) found ≡ false)
    × IsAnswered network t found (codes "hi")
fetch_url-IsAnswered_example =
    fetch_url-IsAnswered network "https://h?q" [] (codes "hi") (ap (λ w. w.0) fetched)

passed : checked_url network "http://p/x" ≡ ok private_target
unfolding checked_url
passed = refl
