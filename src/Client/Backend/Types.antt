-- ===== src/Client/Backend/Types.antt =====
-- What the HTTP backend calls (crates/git-lfs-delta-client/src/backend.rs): the `reqwest`, `url`,
-- `serde_json` and `uuid` crates and the file system, as operations over a state of their own.
use git_cdc.Common.{
  ℕ, ◌*◌, ◌^◌, Bool, ◌||◌, ◌&&◌, List, Option, none, some, Result, nat_eq, ltb, leb,
}
use git_cdc.Core.Manifest.{ObjectManifest, ManifestError}
use git_cdc.Core.Stream.{CoreError}
use git_cdc.Client.Transfer.{BackendError}
use git_cdc.Protocol.Messages.{BeginUploadRequest, BeginUploadResponse}

-- `retry_after` is the header's number of seconds, if it has one. A body is read when it is asked
-- for, which may fail.
pub record Response : Type 0 where
  pub status : ℕ
  pub retry_after : Option ℕ
  pub body : Result (List ℕ) (List ℕ)

-- What `send` gives: a response, or the text of an error.
pub data Reply : Type 0 where
  responded : Response → Reply
  transport : List ℕ → Reply

pub data Method : Type 0 where
  get_method post_method put_method : Method

-- A request, with the headers of its action.
pub record HttpRequest (Url : Type 0) : Type 0 where
  pub method : Method
  pub url : Url
  pub header : List (List ℕ × List ℕ)
  pub content : List ℕ

-- `open_file` gives what the file holds; `new_temporary` makes the cache's folder and a file in it,
-- and `keep_temporary` keeps that file with its bytes and gives its path. `save_new` makes the folder
-- of a path and puts a file with the bytes there; that there is a file already is no error. The error
-- of an operation of several calls says in its text which one failed. A wait is in milliseconds.
-- `url_of_href` is how `reqwest` takes a text for a URL: a text that is none makes a request whose
-- `send` fails. `core_error_text` and `manifest_error_text` are the `Display` that `thiserror` makes.
pub record Platform : Type 1 where
  pub State : Type 0
  pub Url : Type 0
  pub send : HttpRequest Url → State → Reply × State
  pub sleep : ℕ → State → State
  pub url_of_href : List ℕ → Url
  pub parse_url : List ℕ → Result Url (List ℕ)
  pub extend_segments : Url → List (List ℕ) → Option Url
  pub number_text : ℕ → List ℕ
  pub uuid_text : ℕ → List ℕ
  pub hex_encode : List ℕ → List ℕ
  pub blake3 : List ℕ → List ℕ
  pub sha256 : List ℕ → List ℕ
  pub core_error_text : CoreError → List ℕ
  pub manifest_error_text : ManifestError → List ℕ
  pub json_of_begin : BeginUploadRequest → List ℕ
  pub parse_plan : List ℕ → Result BeginUploadResponse (List ℕ)
  pub parse_manifest : List ℕ → Result ObjectManifest (List ℕ)
  pub open_file : List ℕ → State → Result (List ℕ) (List ℕ) × State
  pub new_temporary : State → Result (Unit {0}) (List ℕ) × State
  pub keep_temporary : List ℕ → State → Result (List ℕ) (List ℕ) × State
  pub read_file : List ℕ → State → Option (List ℕ) × State
  pub remove_file : List ℕ → State → Result (Unit {0}) (List ℕ) × State
  pub save_new : List ℕ → List ℕ → State → Result (Unit {0}) (List ℕ) × State

-- `failure`
pub failure : List ℕ → BackendError
failure message = record { code = 1; message = message }

unfoldable pub retryable_status : ℕ → Bool
retryable_status status =
    nat_eq status 408 || (nat_eq status 429 || (leb 500 status && ltb status 600))

abbrev pub is_success : ℕ → Bool
is_success status = leb 200 status && ltb status 300

-- The delay before the attempt after this one, in milliseconds.
unfoldable pub backoff : ℕ → ℕ
backoff attempt = 100 * 2 ^ attempt

unfoldable pub delay_of : Response → ℕ → ℕ
delay_of response attempt = elim response.retry_after [
  | none ↦ backoff attempt
  | some seconds ↦ 1000 * seconds
]
