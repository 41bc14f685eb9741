-- ===== src/Url.antt =====
-- The type `url.URL` of Go's net/url, with the fields that the program reads, and the functions on
-- it, which are a parameter.
use lico.Base.{String, Option}

pub record Url : Type 0 where
  pub scheme : String
  pub host : String
  pub path : String
  -- all that the other fields hold (user, query, fragment)
  pub rest : String

pub record UrlLib : Type 0 where
  -- url.Parse; `none` is the nil URL that comes with an error
  pub parse : String → Option Url
  -- (*URL).String
  pub to_string : Url → String
  -- (*URL).Hostname
  pub hostname : Url → String
  -- the URL with one more pair in its query
  pub add_query : String → String → Url → Url
