-- ===== src/Whatsapp/Client.antt =====
-- The client of the WhatsApp Cloud API: internal/whatsapp/client/request.client.go and
-- request.client.options.go. HTTP is the parameter `http`; `W` is the world it acts on.
pub mod Calls
use Prim.Native.String
use im_providers_service.Prelude.{
  String, ℕ, Bool, true, false, not, ◌&&◌, ◌||◌, List, [], ◌∷◌, ◌++◌, leb, ◌==◌, nat_eq, string_eq,
  if◌then◌else◌,
}
use im_providers_service.Prelude.Text.{codes, is_blank, has_prefix, contains, is_digit}
use im_providers_service.Prelude.Io.{Io, return, fail, follow, ◌>>=◌}
use im_providers_service.Prelude.Failure.{
  Result, ok, err, status, require, ◌and_then◌, invalid_argument, internal, not_found,
}

-- strings.Join(parts, "")
unfoldable pub joined : List String → String
joined [] = ""
joined (s ∷ parts) = String.◌++◌ s (joined parts)

pub record RequestClientConfig : Type 0 where
  pub api_version : String
  pub base_url : String
  pub access_token : String

pub record RequestClient : Type 0 where
  pub api_version : String
  pub base_url : String
  pub access_token : String

-- Where a reader of the expression `^v\d+\.\d+$` is after the `v`.
pub data VersionPart : Type 0 where
  major_first major minor_first minor : VersionPart

abbrev pub version_from : VersionPart → List ℕ → Bool
version_from minor [] = true
version_from _ [] = false
version_from major_first (c ∷ s) = is_digit c && version_from major s
version_from major (c ∷ s) =
    (is_digit c && version_from major s) || (c == b'.' && version_from minor_first s)
version_from minor_first (c ∷ s) = is_digit c && version_from minor s
version_from minor (c ∷ s) = is_digit c && version_from minor s

-- apiVersionRegex
abbrev pub is_version : List ℕ → Bool
is_version [] = false
is_version (c ∷ s) = c == b'v' && version_from major_first s

-- RequestClientConfig.Validate
unfoldable pub validate_config : RequestClientConfig → Result (Unit {0})
validate_config config =
    require (not (is_blank config.access_token)) "access token is required"
    and_then require (not (is_blank config.api_version)) "api version is required"
    and_then require (is_version (codes config.api_version)) "invalid format for graph api"
    and_then require (contains (codes "graph.facebook.com") (codes config.base_url))
        "base URL must contain \"graph.facebook.com\""
    and_then require (not (has_prefix (codes "https://") (codes config.base_url)))
        "base URL must not include protocol as \"http://\" adds by default"

abbrev pub default_config : RequestClientConfig
default_config = record {
  api_version = "v25.0";
  base_url = "graph.facebook.com";
  access_token = "";
}

abbrev pub with_access_token : String → RequestClientConfig → RequestClientConfig
with_access_token token cfg = record cfg { access_token = token }

abbrev with_api_version : String → RequestClientConfig → RequestClientConfig
with_api_version version cfg = record cfg { api_version = version }

abbrev with_base_url : String → RequestClientConfig → RequestClientConfig
with_base_url base cfg = record cfg { base_url = base }

abbrev pub apply_options :
    List (RequestClientConfig → RequestClientConfig) → RequestClientConfig → RequestClientConfig
apply_options [] cfg = cfg
apply_options (option ∷ options) cfg = apply_options options (option cfg)

abbrev pub client_of : RequestClientConfig → RequestClient
client_of cfg = record {
  api_version = cfg.api_version;
  base_url = cfg.base_url;
  access_token = cfg.access_token;
}

-- NewRequesClient
unfoldable pub new_request_client :
    List (RequestClientConfig → RequestClientConfig) → Result RequestClient
new_request_client options =
    let cfg = apply_options options default_config in
    validate_config cfg and_then ok (client_of cfg)

pub record HttpRequest : Type 0 where
  pub method : String
  pub url : String
  pub body : String
  pub content_type : String
  pub authorization : String

-- An answer; its body is read to the end, which may fail.
pub record HttpResponse : Type 0 where
  pub status_code : ℕ
  pub content_type : String
  pub body : Result String

pub record Http (W : Type 0) : Type 0 where
  -- http.NewRequestWithContext, for a method and a URL
  pub new_request : String → String → Result (Unit {0})
  -- http.DefaultClient.Do
  pub send : HttpRequest → Io W HttpResponse
  -- the order in which `range` visits a map
  pub range : List (String × String) → List (String × String)

-- The query that the loop has built, and the pairs it has still to visit. From the second pair on, what
-- was built is written twice.
unfoldable pub add_params : String → List (String × String) → String
add_params built [] = built
add_params built ((k, v) ∷ params) =
    add_params
      (if built == "?"
        then joined (built ∷ k ∷ "=" ∷ v ∷ [])
        else joined (built ∷ "&" ∷ built ∷ "&" ∷ k ∷ "=" ∷ v ∷ []))
      params

unfoldable pub query_string : List (String × String) → String
query_string [] = ""
query_string (p ∷ params) = add_params "?" (p ∷ params)

-- m[key] = value
abbrev pub put : String → String → List (String × String) → List (String × String)
put key value [] = (key, value) ∷ []
put key value ((k, v) ∷ m) =
    let rest = put key value m in if k == key then (k, value) ∷ m else (k, v) ∷ rest

abbrev pub put_all : List (String × String) → List (String × String) → List (String × String)
put_all [] m = m
put_all ((k, v) ∷ pairs) m = put_all pairs (put k v m)

pub record ApiRequestParamField : Type 0 where
  pub name : String
  pub filters : List (String × String)

pub record ApiRequest : Type 0 where
  pub path : String
  pub method : String
  pub body : String
  pub fields : List ApiRequestParamField
  pub query_params : List (String × String)
  pub requester : RequestClient

unfoldable pub new_api_request : RequestClient → String → String → ApiRequest
new_api_request client path method = record {
  path = path;
  method = method;
  body = "";
  fields = [];
  query_params = [];
  requester = client;
}

abbrev pub add_field : ApiRequestParamField → ApiRequest → ApiRequest
add_field field request = record request { fields = request.fields ++ (field ∷ []) }

abbrev pub add_query_param : String → String → ApiRequest → ApiRequest
add_query_param key value request = record request {
  query_params = put key value request.query_params;
}

abbrev pub set_body : String → ApiRequest → ApiRequest
set_body body request = record request { body = body }

abbrev pub bearer : RequestClient → String
bearer client = String.◌++◌ "Bearer " client.access_token

module _ {W : Type 0} (http : Http W) where
  unfoldable pub request_url : RequestClient → String → List (String × String) → String
  unfolding joined query_string add_params
  request_url client path query = joined (
      "https"
      ∷ "://"
      ∷ client.base_url
      ∷ "/"
      ∷ client.api_version
      ∷ "/"
      ∷ path
      ∷ query_string (http.range query)
      ∷ [])

  abbrev pub read_all : Result String → Io W String
  read_all (ok body) = return body
  read_all (err e) = fail (status internal "reading response body")

  -- what follows NewRequestWithContext
  abbrev pub perform : HttpRequest → Result (Unit {0}) → Io W String
  perform request (err e) = fail (status internal "creating new http request")
  perform request (ok _) = http.send request >>= λ response. read_all response.body

  -- requestWithContext
  unfoldable pub request_with_context :
      RequestClient → String → String → String → List (String × String) → Io W String
  request_with_context client body path method query =
      let url = request_url client path query in
      perform
        (record {
          method = method;
          url = url;
          body = body;
          content_type = "application/json";
          authorization = bearer client;
        })
        (http.new_request method url)

  abbrev pub filter_text : List (String × String) → String
  filter_text [] = ""
  filter_text ((k, v) ∷ filters) = joined ("." ∷ k ∷ "(" ∷ v ∷ ")" ∷ filter_text filters ∷ [])

  abbrev pub field_text : String → List ApiRequestParamField → String
  field_text built [] = built
  field_text built (field ∷ fields) =
      let text = String.◌++◌ field.name (filter_text (http.range field.filters)) in
      field_text (if built == "" then text else joined (built ∷ "," ∷ text ∷ [])) fields

  abbrev pub fields_param : List ApiRequestParamField → List (String × String)
  fields_param [] = []
  fields_param (field ∷ fields) = put "fields" (field_text "" (field ∷ fields)) []

  -- ExecuteWithContext
  unfoldable pub execute : ApiRequest → Io W String
  execute request =
      request_with_context request.requester request.body request.path request.method
        (put_all (http.range request.query_params) (fields_param request.fields))

  -- RequestMultipartWithContext
  unfoldable pub request_multipart : RequestClient → String → String → String → String → Io W String
  unfolding joined
  request_multipart client method path content_type body =
      let url =
        joined ("https" ∷ "://" ∷ client.base_url ∷ "/" ∷ client.api_version ∷ "/" ∷ path ∷ []) in
      perform
        (record {
          method = method;
          url = url;
          body = body;
          content_type = content_type;
          authorization = bearer client;
        })
        (http.new_request method url)

  -- The body, not read yet, and its Content-Type.
  abbrev pub downloaded : HttpResponse → Io W (Result String × String)
  downloaded response =
      if leb 200 response.status_code && not (leb 300 response.status_code)
      then return (response.body, response.content_type)
      else fail (status not_found "bad media download response status")

  abbrev pub get_media : HttpRequest → Result (Unit {0}) → Io W (Result String × String)
  get_media request (err e) = fail (status internal "creating download whatsapp media request")
  get_media request (ok _) = http.send request >>= downloaded

  -- RequestMediaDownloadByURLWithContext
  unfoldable pub request_media_download : RequestClient → String → Io W (Result String × String)
  request_media_download client url =
      if url == ""
      then fail (status invalid_argument "media url is required")
      else get_media
          (record {
            method = "GET";
            url = url;
            body = "";
            content_type = "application/json";
            authorization = bearer client;
          })
          (http.new_request "GET" url)
