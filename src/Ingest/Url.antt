-- ===== src/Ingest/Url.antt =====
-- app/ingest/url_hash.py: the hash by which postings are told apart.
use Prim.Native.Char.{code}
use job_match_pipeline.Prelude.{String, nat_beq, if◌then◌else◌}
use job_match_pipeline.Prelude.Text.{truthy, strip, reverse_onto}

-- `urllib.parse.SplitResult`
pub record SplitResult : Type 0 where
  pub scheme : String
  pub netloc : String
  pub path : String
  pub query : String
  pub fragment : String

-- Python's `urlsplit`, `urlunsplit`, `str.lower` and `hashlib.sha256(…).hexdigest()`.
pub record UrlLibrary : Type 0 where
  pub urlsplit : String → SplitResult
  pub urlunsplit : SplitResult → String
  pub lower : String → String
  pub sha256 : String → String

abbrev drop_slashes : String → String
drop_slashes String.[] = ""
drop_slashes (String.◌∷◌ c s) = if nat_beq (code c) 47 then drop_slashes s else String.◌∷◌ c s

-- `path.rstrip("/") or "/"`
unfoldable pub trim_path : String → String
unfolding reverse_onto
trim_path path =
    let trimmed = reverse_onto "" (drop_slashes (reverse_onto "" path)) in
    if truthy trimmed then trimmed else "/"

unfoldable pub normalize_url : UrlLibrary → String → String
normalize_url lib url =
    let parts = lib.urlsplit (strip url) in
    lib.urlunsplit (record {
      scheme = lib.lower parts.scheme;
      netloc = lib.lower parts.netloc;
      path = trim_path parts.path;
      query = parts.query;
      fragment = "";
    })

unfoldable pub hash_url : UrlLibrary → String → String
hash_url lib url = lib.sha256 (normalize_url lib url)
